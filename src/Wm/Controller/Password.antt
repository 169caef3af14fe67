-- ===== src/Wm/Controller/Password.antt =====
-- daemon-wm/src/commands.rs, its cases for the password buffer: the buffer against the controller's
-- count of characters.
use open_sesame.Prelude.{
  ℕ, ◌≡◌, Bool, true, false, not, ◌&&◌, Option, suc, ◌-◌, ◌≤◌, some, List, [], ◌∷◌, ◌++◌, arith,
  Bool-cases, inl, inr,
}
use open_sesame.Prelude.Text.{Text, Unicode}
use open_sesame.Wm.Config.{WmConfig}
use open_sesame.Types.{Window}
use open_sesame.Wm.Mru.{Disk}
use open_sesame.Wm.Hints.{MatchResult, exact, match_input}
use open_sesame.Wm.Snapshot.{Snapshot, build, has_targets}
use open_sesame.Wm.Controller.State.{
  Command, password_char, password_backspace, submit_password_unlock, clear_password_buffer, Phase,
  idle, armed, picking, launching, unlocking, OverlayController, Step, Armed, Picking, Event,
  LaunchResult, Unlocking, ActivationMode, forward,
}
use open_sesame.Wm.Controller.Activate.{
  enter, from_idle, is_launcher, on_activate, on_modifier_released, on_dwell_timeout,
}
use open_sesame.Wm.Controller.Input.{on_backspace, on_confirm, on_escape, navigate}
use open_sesame.Wm.Controller.Typing.{on_match, accepts, on_char}
use open_sesame.Wm.Controller.Unlock.{
  on_launch_result, unlock_plan, advance_to_next_profile_or_retry, on_auto_unlock_result,
  on_touch_result, on_unlock_result,
}
use open_sesame.Wm.Controller.Handle.{World, handle}
use open_sesame.Wm.Controller.Rules.{at, Handlers, handle-rule}

-- The buffer's characters after a command is executed. `pop_char` does nothing on an empty buffer,
-- and a submission clears the buffer once it has copied it.
unfoldable pub buffer : Command → ℕ → ℕ
buffer (password_char _) n = suc n
buffer password_backspace n = n - 1
buffer (submit_password_unlock _) n = 0
buffer clear_password_buffer n = 0
buffer _ n = n

unfoldable pub buffer_after : ℕ → List Command → ℕ
unfolding buffer
buffer_after n [] = n
buffer_after n (command ∷ commands) = buffer_after (buffer command n) commands

-- The buffer holds no more characters than the controller shows dots for, and none at all outside
-- the unlocking phase.
abbrev pub Fits : ℕ → Phase → Type 0
Fits n (unlocking k) = n ≤ k.password_len
Fits n _ = n ≡ 0

-- A step brings a buffer that fits to one that fits.
abbrev Keeps : Phase → Step → Type 0
Keeps p s = (n : ℕ) → Fits n p → Fits (buffer_after n s.1) s.0.phase

enter-Keeps :
    (mode : ActivationMode) (now : ℕ) (config : WmConfig) (snap : Snapshot) (c : OverlayController)
    → Keeps idle (enter mode now config snap c)
unfolding enter buffer_after
enter-Keeps forward now config snap c n f = f
enter-Keeps _ now config snap c n f = f

from_idle-Keeps :
    (mode : ActivationMode) (now : ℕ) (config : WmConfig) (built : Snapshot × Disk)
    (last : Option ℕ)
    → Keeps idle (from_idle mode now config built (at idle last)).0
unfolding buffer_after
from_idle-Keeps mode now config (snap, disk) last n f =
    elim (Bool-cases (not (is_launcher mode) && not (has_targets snap))) [
      | inl refused ↦ rw refused f
      | inr entered ↦ rw entered (enter-Keeps mode now config snap (at idle last) n f)
    ]

on_activate-Keeps :
    (u : Unicode) (windows : List Window) (config : WmConfig) (mode : ActivationMode) (now : ℕ)
    (disk : Disk) (p : Phase) (last : Option ℕ)
    → Keeps p (on_activate u windows config mode now disk (at p last)).0
unfolding on_activate buffer_after
on_activate-Keeps u windows config mode now disk idle last n f =
    from_idle-Keeps mode now config (build u windows config disk) last n f
on_activate-Keeps u windows config mode now disk (armed a) last n f = f
on_activate-Keeps u windows config mode now disk _ last n f = f

on_modifier_released-Keeps :
    (now : ℕ) (p : Phase) (last : Option ℕ) → Keeps p (on_modifier_released now (at p last))
unfolding on_modifier_released buffer_after
on_modifier_released-Keeps now (armed a) last n f = ground arith
on_modifier_released-Keeps now _ last n f = ground arith

on_match-Keeps_armed :
    (u : Unicode) (r : MatchResult) (a : Armed) (last : Option ℕ)
    → Keeps (armed a) (on_match u r true a.input a.snap (at (armed a) last))
unfolding on_match buffer_after
on_match-Keeps_armed u (exact i) a last n f = ground arith
on_match-Keeps_armed u _ a last n f = ground arith

on_match-Keeps_picking :
    (u : Unicode) (r : MatchResult) (a : Picking) (last : Option ℕ)
    → Keeps (picking a) (on_match u r false a.input a.snap (at (picking a) last))
unfolding on_match buffer_after
on_match-Keeps_picking u (exact i) a last n f = ground arith
on_match-Keeps_picking u _ a last n f = ground arith

on_char-Keeps :
    (u : Unicode) (ch : ℕ) (p : Phase) (last : Option ℕ) → Keeps p (on_char u ch (at p last))
unfolding on_char buffer_after
on_char-Keeps u ch (armed a) last n f =
    let typed = record a { input = a.input ++ ch ∷ [] } in
    elim (Bool-cases (accepts u a.input ch)) [
      | inl taken ↦
          rw taken (on_match-Keeps_armed u (match_input u typed.input a.snap.hints) typed last n f)
      | inr refused ↦ rw refused f
    ]
on_char-Keeps u ch (picking a) last n f =
    let typed = record a { input = a.input ++ ch ∷ [] } in
    elim (Bool-cases (accepts u a.input ch)) [
      | inl taken ↦
          rw taken
            (on_match-Keeps_picking u (match_input u typed.input a.snap.hints) typed last n f)
      | inr refused ↦ rw refused f
    ]
on_char-Keeps u ch _ last n f = ground arith

on_backspace-Keeps : (p : Phase) (last : Option ℕ) → Keeps p (on_backspace (at p last))
unfolding on_backspace buffer_after
on_backspace-Keeps (armed a) last n f = f
on_backspace-Keeps _ last n f = ground arith

navigate-Keeps :
    (move : ℕ → ℕ → ℕ) (p : Phase) (last : Option ℕ) → Keeps p (navigate move (at p last))
unfolding navigate buffer_after
navigate-Keeps move (armed a) last n f = f
navigate-Keeps move _ last n f = f

on_escape-Keeps : (p : Phase) (last : Option ℕ) → Keeps p (on_escape (at p last))
unfolding on_escape buffer_after
on_escape-Keeps (armed a) last n f = f
on_escape-Keeps _ last n f = ground arith

on_confirm-Keeps :
    (p : Phase) (last : Option ℕ) (s : Step) → on_confirm (at p last) ≡ some s → Keeps p s
unfolding on_confirm buffer_after
on_confirm-Keeps (armed a) last s e n f = ground arith
on_confirm-Keeps _ last s e n f = ground arith

on_dwell_timeout-Keeps : (p : Phase) (last : Option ℕ) → Keeps p (on_dwell_timeout (at p last))
unfolding on_dwell_timeout buffer_after
on_dwell_timeout-Keeps (armed a) last n f = f
on_dwell_timeout-Keeps _ last n f = f

on_launch_result-Keeps :
    (r : LaunchResult) (p : Phase) (last : Option ℕ) → Keeps p (on_launch_result r (at p last))
unfolding on_launch_result unlock_plan buffer_after
on_launch_result-Keeps r launching last n f = ground arith
on_launch_result-Keeps r _ last n f = f

advance-Keeps :
    (k : Unlocking) (c : OverlayController)
    → Keeps (unlocking k) (advance_to_next_profile_or_retry k c)
unfolding advance_to_next_profile_or_retry buffer_after
advance-Keeps k c n f = ground arith

on_auto_unlock_result-Keeps :
    (success : Bool) (profile : Text) (touch : Bool) (p : Phase) (last : Option ℕ)
    → Keeps p (on_auto_unlock_result success profile touch (at p last))
unfolding on_auto_unlock_result buffer_after
on_auto_unlock_result-Keeps success profile touch (unlocking k) last n f =
    ground (arith, advance-Keeps k (at (unlocking k) last) n)
on_auto_unlock_result-Keeps success profile touch _ last n f = f

on_touch_result-Keeps :
    (success : Bool) (profile : Text) (p : Phase) (last : Option ℕ)
    → Keeps p (on_touch_result success profile (at p last))
unfolding on_touch_result buffer_after
on_touch_result-Keeps success profile (unlocking k) last n f =
    ground (arith, advance-Keeps k (at (unlocking k) last) n)
on_touch_result-Keeps success profile _ last n f = f

on_unlock_result-Keeps :
    (success : Bool) (profile : Text) (p : Phase) (last : Option ℕ)
    → Keeps p (on_unlock_result success profile (at p last))
unfolding on_unlock_result buffer_after
on_unlock_result-Keeps success profile (unlocking k) last n f =
    ground (arith, advance-Keeps k (at (unlocking k) last) n)
on_unlock_result-Keeps success profile _ last n f = f

abbrev keeping : (u : Unicode) → Handlers u (λ e. Keeps)
keeping u = record {
  activated = λ e windows config mode now disk p last is.
      on_activate-Keeps u windows config mode now disk p last;
  released = on_modifier_released-Keeps;
  typed = on_char-Keeps u;
  erased = on_backspace-Keeps;
  skipped = λ e p last is n f. unfold buffer_after in f;
  navigated = λ e move p last is. navigate-Keeps move p last;
  confirmed = on_confirm-Keeps;
  escaped = λ e p last is. on_escape-Keeps p last;
  dwelt = on_dwell_timeout-Keeps;
  launched = on_launch_result-Keeps;
  auto_unlocked = on_auto_unlock_result-Keeps;
  touched = on_touch_result-Keeps;
  unlocked = on_unlock_result-Keeps;
}

-- If the buffer holds no more characters than the count of the unlocking phase, and none outside of
-- it, then so it is after any event and the execution of its commands: no password character
-- outlives the unlocking.
pub handle-Fits :
    (u : Unicode) (e : Event) (w : World) (c : OverlayController) (r : Step × Disk) (n : ℕ)
    → handle u e w c ≡ some r
    → Fits n c.phase
    → Fits (buffer_after n r.0.1) r.0.0.phase
handle-Fits u e w c r n eq = handle-rule u (λ e. Keeps) (keeping u) e w c r eq n
