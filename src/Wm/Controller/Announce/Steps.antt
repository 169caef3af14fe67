-- ===== src/Wm/Controller/Announce/Steps.antt =====
-- daemon-wm/src/controller.rs: what each handler does to the surface and announces.
use open_sesame.Prelude.{
  ℕ, ◌≡◌, Bool, true, false, not, ◌&&◌, Option, some, List, [], ◌∷◌, ◌++◌, arith, Bool-cases, inl,
  inr,
}
use open_sesame.Prelude.Text.{Text, Unicode}
use open_sesame.Wm.Config.{WmConfig}
use open_sesame.Types.{Window}
use open_sesame.Wm.Mru.{Disk}
use open_sesame.Wm.Hints.{MatchResult, exact, match_input}
use open_sesame.Wm.Snapshot.{Snapshot, build, has_targets}
use open_sesame.Wm.Controller.State.{
  Phase, idle, armed, picking, launching, unlocking, OverlayController, Step, Armed, Picking,
  LaunchResult, Unlocking, ActivationMode, forward,
}
use open_sesame.Wm.Controller.Activate.{
  enter, from_idle, is_launcher, on_activate, activate_index, on_modifier_released,
  on_dwell_timeout,
}
use open_sesame.Wm.Controller.Input.{on_backspace, on_confirm, on_escape, navigate}
use open_sesame.Wm.Controller.Typing.{on_match, accepts, on_char}
use open_sesame.Wm.Controller.Unlock.{
  on_launch_result, advance_to_next_profile_or_retry, on_auto_unlock_result, on_touch_result,
  on_unlock_result,
}
use open_sesame.Wm.Controller.Rules.{at}
use open_sesame.Wm.Controller.Announce.{is_active, Announces}

enter-Announces :
    (mode : ActivationMode) (now : ℕ) (config : WmConfig) (snap : Snapshot) (c : OverlayController)
    → Announces false (enter mode now config snap c)
unfolding enter
enter-Announces forward now config snap c = ground arith
enter-Announces _ now config snap c = ground arith

from_idle-Announces :
    (mode : ActivationMode) (now : ℕ) (config : WmConfig) (built : Snapshot × Disk)
    (last : Option ℕ)
    → Announces false
        (from_idle mode now config built (record { phase = idle; last_ipc_advance = last })).0
from_idle-Announces mode now config (snap, disk) last =
    elim (Bool-cases (not (is_launcher mode) && not (has_targets snap))) [
      | inl refused ↦ rw refused (ground arith)
      | inr entered ↦ rw entered (enter-Announces mode now config snap _)
    ]

pub on_activate-Announces :
    (u : Unicode) (windows : List Window) (config : WmConfig) (mode : ActivationMode) (now : ℕ)
    (disk : Disk) (p : Phase) (last : Option ℕ)
    → Announces (is_active p) (on_activate u windows config mode now disk (at p last)).0
unfolding on_activate
on_activate-Announces u windows config mode now disk idle last =
    from_idle-Announces mode now config (build u windows config disk) last
on_activate-Announces u windows config mode now disk (armed a) last = ground arith
on_activate-Announces u windows config mode now disk _ last = ground arith

activate_index-Announces : (i : ℕ) (snap : Snapshot) → Announces true (activate_index i snap)
unfolding activate_index
activate_index-Announces i snap = ground arith

pub on_modifier_released-Announces :
    (now : ℕ) (p : Phase) (last : Option ℕ)
    → Announces (is_active p) (on_modifier_released now (at p last))
unfolding on_modifier_released
on_modifier_released-Announces now (armed a) last = ground arith
on_modifier_released-Announces now (picking a) last = ground arith
on_modifier_released-Announces now _ last = ground arith

pub on_dwell_timeout-Announces :
    (p : Phase) (last : Option ℕ) → Announces (is_active p) (on_dwell_timeout (at p last))
unfolding on_dwell_timeout
on_dwell_timeout-Announces (armed a) last = ground arith
on_dwell_timeout-Announces _ last = ground arith

on_match-Announces_armed :
    (u : Unicode) (r : MatchResult) (a : Armed) (last : Option ℕ)
    → Announces true
        (on_match u r true a.input a.snap (record { phase = armed a; last_ipc_advance = last }))
unfolding on_match
on_match-Announces_armed u (exact i) a last = ground arith
on_match-Announces_armed u _ a last = ground arith

on_match-Announces_picking :
    (u : Unicode) (r : MatchResult) (a : Picking) (last : Option ℕ)
    → Announces true
        (on_match u r false a.input a.snap (record { phase = picking a; last_ipc_advance = last }))
unfolding on_match
on_match-Announces_picking u (exact i) a last = ground arith
on_match-Announces_picking u _ a last = ground arith

pub on_char-Announces :
    (u : Unicode) (ch : ℕ) (p : Phase) (last : Option ℕ)
    → Announces (is_active p) (on_char u ch (at p last))
unfolding on_char
on_char-Announces u ch (armed a) last =
    let typed = record a { input = a.input ++ ch ∷ [] } in
    elim (Bool-cases (accepts u a.input ch)) [
      | inl taken ↦
          rw taken (on_match-Announces_armed u (match_input u typed.input a.snap.hints) typed last)
      | inr refused ↦ rw refused (ground arith)
    ]
on_char-Announces u ch (picking a) last =
    let typed = record a { input = a.input ++ ch ∷ [] } in
    elim (Bool-cases (accepts u a.input ch)) [
      | inl taken ↦
          rw taken
            (on_match-Announces_picking u (match_input u typed.input a.snap.hints) typed last)
      | inr refused ↦ rw refused (ground arith)
    ]
on_char-Announces u ch _ last = ground arith

pub on_backspace-Announces :
    (p : Phase) (last : Option ℕ) → Announces (is_active p) (on_backspace (at p last))
unfolding on_backspace
on_backspace-Announces (armed a) last = ground arith
on_backspace-Announces _ last = ground arith

pub navigate-Announces :
    (move : ℕ → ℕ → ℕ) (p : Phase) (last : Option ℕ)
    → Announces (is_active p) (navigate move (at p last))
unfolding navigate
navigate-Announces move (armed a) last = ground arith
navigate-Announces move _ last = ground arith

pub on_escape-Announces :
    (p : Phase) (last : Option ℕ) → Announces (is_active p) (on_escape (at p last))
unfolding on_escape
on_escape-Announces (armed a) last = ground arith
on_escape-Announces _ last = ground arith

pub on_confirm-Announces :
    (p : Phase) (last : Option ℕ) (s : Step)
    → on_confirm (at p last) ≡ some s
    → Announces (is_active p) s
unfolding on_confirm
on_confirm-Announces (armed a) last s e = ground arith
on_confirm-Announces _ last s e = ground arith

pub on_launch_result-Announces :
    (r : LaunchResult) (p : Phase) (last : Option ℕ)
    → Announces (is_active p) (on_launch_result r (at p last))
unfolding on_launch_result
on_launch_result-Announces r launching last = ground arith
on_launch_result-Announces r _ last = ground arith

advance-Announces :
    (k : Unlocking) (c : OverlayController) → Announces true (advance_to_next_profile_or_retry k c)
unfolding advance_to_next_profile_or_retry
advance-Announces k c = ground arith

pub on_auto_unlock_result-Announces :
    (success : Bool) (profile : Text) (touch : Bool) (p : Phase) (last : Option ℕ)
    → Announces (is_active p) (on_auto_unlock_result success profile touch (at p last))
unfolding on_auto_unlock_result
on_auto_unlock_result-Announces success profile touch (unlocking k) last =
    ground (arith, advance-Announces k (at (unlocking k) last))
on_auto_unlock_result-Announces success profile touch _ last = ground arith

pub on_touch_result-Announces :
    (success : Bool) (profile : Text) (p : Phase) (last : Option ℕ)
    → Announces (is_active p) (on_touch_result success profile (at p last))
unfolding on_touch_result
on_touch_result-Announces success profile (unlocking k) last =
    ground (arith, advance-Announces k (at (unlocking k) last))
on_touch_result-Announces success profile _ last = ground arith

pub on_unlock_result-Announces :
    (success : Bool) (profile : Text) (p : Phase) (last : Option ℕ)
    → Announces (is_active p) (on_unlock_result success profile (at p last))
unfolding on_unlock_result
on_unlock_result-Announces success profile (unlocking k) last =
    ground (arith, advance-Announces k (at (unlocking k) last))
on_unlock_result-Announces success profile _ last = ground arith
