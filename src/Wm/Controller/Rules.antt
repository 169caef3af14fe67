-- ===== src/Wm/Controller/Rules.antt =====
-- One rule for a claim about every event: prove it of each handler, and it holds of `handle`.
use open_sesame.Prelude.{
  ℕ, ◌≡◌, refl, subst, Bool, true, false, Option, none, some, Option-cases, inl, inr, List, [],
  arith,
}
use open_sesame.Prelude.Text.{Text, Unicode}
use open_sesame.Types.{Window}
use open_sesame.Wm.Config.{WmConfig}
use open_sesame.Wm.Mru.{Disk}
use open_sesame.Wm.Controller.State.{
  Phase, OverlayController, Step, LaunchResult, ActivationMode, forward, backward, launcher,
  launcher_backward, Event, activate, activate_backward, activate_launcher,
  activate_launcher_backward, modifier_released, char, backspace, selection_down, selection_up,
  confirm, escape, dismiss, dwell_timeout, launch_result, auto_unlock_result, touch_result,
  unlock_result,
}
use open_sesame.Wm.Controller.Activate.{on_activate, on_modifier_released, on_dwell_timeout}
use open_sesame.Wm.Controller.Input.{
  on_backspace, on_confirm, on_escape, navigate, unless_duplicate, is_reactivation_duplicate, down,
  up, on_selection_down, on_selection_up,
}
use open_sesame.Wm.Controller.Typing.{on_char}
use open_sesame.Wm.Controller.Unlock.{
  on_launch_result, on_auto_unlock_result, on_touch_result, on_unlock_result,
}
use open_sesame.Wm.Controller.Handle.{World, handle}

abbrev pub at : Phase → Option ℕ → OverlayController
at p last = record { phase = p; last_ipc_advance = last }

abbrev pub is_activation : Event → Bool
is_activation activate = true
is_activation activate_backward = true
is_activation activate_launcher = true
is_activation activate_launcher_backward = true
is_activation _ = false

abbrev pub is_navigation : Event → Bool
is_navigation selection_down = true
is_navigation selection_up = true
is_navigation _ = false

abbrev pub is_exit : Event → Bool
is_exit escape = true
is_exit dismiss = true
is_exit _ = false

-- What is to be shown of each handler for a claim `R` about an event, a phase and the step.
pub record Handlers (u : Unicode) (R : Event → Phase → Step → Type 0) : Type 0 where
  pub activated :
      (e : Event) (windows : List Window) (config : WmConfig) (mode : ActivationMode) (now : ℕ)
      (disk : Disk) (p : Phase) (last : Option ℕ)
      → is_activation e ≡ true
      → R e p (on_activate u windows config mode now disk (at p last)).0
  pub released :
      (now : ℕ) (p : Phase) (last : Option ℕ)
      → R modifier_released p (on_modifier_released now (at p last))
  pub typed : (ch : ℕ) (p : Phase) (last : Option ℕ) → R (char ch) p (on_char u ch (at p last))
  pub erased : (p : Phase) (last : Option ℕ) → R backspace p (on_backspace (at p last))
  pub skipped :
      (e : Event) (p : Phase) (last : Option ℕ) → is_navigation e ≡ true → R e p (at p last, [])
  pub navigated :
      (e : Event) (move : ℕ → ℕ → ℕ) (p : Phase) (last : Option ℕ)
      → is_navigation e ≡ true
      → R e p (navigate move (at p last))
  pub confirmed :
      (p : Phase) (last : Option ℕ) (s : Step) → on_confirm (at p last) ≡ some s → R confirm p s
  pub escaped :
      (e : Event) (p : Phase) (last : Option ℕ) → is_exit e ≡ true → R e p (on_escape (at p last))
  pub dwelt : (p : Phase) (last : Option ℕ) → R dwell_timeout p (on_dwell_timeout (at p last))
  pub launched :
      (r : LaunchResult) (p : Phase) (last : Option ℕ)
      → R (launch_result r) p (on_launch_result r (at p last))
  pub auto_unlocked :
      (success : Bool) (profile : Text) (touch : Bool) (p : Phase) (last : Option ℕ)
      → R
          (auto_unlock_result success profile touch)
          p
          (on_auto_unlock_result success profile touch (at p last))
  pub touched :
      (success : Bool) (profile : Text) (p : Phase) (last : Option ℕ)
      → R (touch_result success profile) p (on_touch_result success profile (at p last))
  pub unlocked :
      (success : Bool) (profile : Text) (p : Phase) (last : Option ℕ)
      → R (unlock_result success profile) p (on_unlock_result success profile (at p last))

module _ (u : Unicode) (R : Event → Phase → Step → Type 0) (h : Handlers u R) where
  navigated-unless_duplicate :
      (e : Event) (move : ℕ → ℕ → ℕ) (r : Bool × OverlayController) (p : Phase)
      → is_navigation e ≡ true
      → r.1.phase ≡ p
      → R e p (unless_duplicate move r)
  navigated-unless_duplicate e move (true, c) p nav same =
      subst (λ q. R e q (c, [])) same (h.skipped e c.phase c.last_ipc_advance nav)
  navigated-unless_duplicate e move (false, c) p nav same =
      subst (λ q. R e q (navigate move c)) same (h.navigated e move c.phase c.last_ipc_advance nav)

  same_phase :
      (now : ℕ) (c : OverlayController) → (is_reactivation_duplicate now c).1.phase ≡ c.phase
  unfolding is_reactivation_duplicate
  same_phase now c = ground arith

  result : {A : Type 0} (P : A → Type 0) (a : A) {b : A} → some a ≡ some b → P a → P b
  result P a {b} e x = let same : a ≡ b = cc in subst P same x

  none-ne-some : {A : Type 0} {b : A} → none ≡ some b → ⊥
  none-ne-some e = cc

  abbrev Holds : Event → OverlayController → Step × Disk → Type 0
  Holds e c r = R e c.phase r.0

  pub handle-rule :
      (e : Event) (w : World) (c : OverlayController) (r : Step × Disk)
      → handle u e w c ≡ some r
      → R e c.phase r.0
  unfolding handle on_selection_down on_selection_up
  handle-rule activate w c r eq =
      result (Holds activate c) _ eq (
        h.activated activate w.windows w.config forward w.now w.disk c.phase c.last_ipc_advance
          refl)
  handle-rule activate_backward w c r eq = result (Holds activate_backward c) _ eq (
      h.activated activate_backward w.windows w.config backward w.now w.disk c.phase
        c.last_ipc_advance refl)
  handle-rule activate_launcher w c r eq = result (Holds activate_launcher c) _ eq (
      h.activated activate_launcher w.windows w.config launcher w.now w.disk c.phase
        c.last_ipc_advance refl)
  handle-rule activate_launcher_backward w c r eq =
      result (Holds activate_launcher_backward c) _ eq (
        h.activated activate_launcher_backward w.windows w.config launcher_backward w.now w.disk
          c.phase c.last_ipc_advance refl)
  handle-rule modifier_released w c r eq =
      result (Holds modifier_released c) _ eq (h.released w.now c.phase c.last_ipc_advance)
  handle-rule (char ch) w c r eq =
      result (Holds (char ch) c) _ eq (h.typed ch c.phase c.last_ipc_advance)
  handle-rule backspace w c r eq =
      result (Holds backspace c) _ eq (h.erased c.phase c.last_ipc_advance)
  handle-rule confirm w c r eq = elim (Option-cases (on_confirm c)) [
    | inl panic ↦ absurd (none-ne-some (rw panic at eq))
    | inr done ↦
        result (Holds confirm c) (done.0, w.disk) (rw done.1 at eq)
          (h.confirmed c.phase c.last_ipc_advance done.0 done.1)
  ]
  handle-rule selection_down w c r eq = result (Holds selection_down c) _ eq (
      navigated-unless_duplicate selection_down down (is_reactivation_duplicate w.now c) c.phase
        refl (same_phase w.now c))
  handle-rule selection_up w c r eq = result (Holds selection_up c) _ eq (
      navigated-unless_duplicate selection_up up (is_reactivation_duplicate w.now c) c.phase refl
        (same_phase w.now c))
  handle-rule escape w c r eq =
      result (Holds escape c) _ eq (h.escaped escape c.phase c.last_ipc_advance refl)
  handle-rule dismiss w c r eq =
      result (Holds dismiss c) _ eq (h.escaped dismiss c.phase c.last_ipc_advance refl)
  handle-rule dwell_timeout w c r eq =
      result (Holds dwell_timeout c) _ eq (h.dwelt c.phase c.last_ipc_advance)
  handle-rule (launch_result l) w c r eq =
      result (Holds (launch_result l) c) _ eq (h.launched l c.phase c.last_ipc_advance)
  handle-rule (auto_unlock_result success profile touch) w c r eq =
      result (Holds (auto_unlock_result success profile touch) c) _ eq
        (h.auto_unlocked success profile touch c.phase c.last_ipc_advance)
  handle-rule (touch_result success profile) w c r eq =
      result (Holds (touch_result success profile) c) _ eq
        (h.touched success profile c.phase c.last_ipc_advance)
  handle-rule (unlock_result success profile) w c r eq =
      result (Holds (unlock_result success profile) c) _ eq
        (h.unlocked success profile c.phase c.last_ipc_advance)
