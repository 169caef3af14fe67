-- ===== src/Wm/Controller/Commit/Steps.antt =====
-- daemon-wm/src/controller.rs: what each handler commits to.
use open_sesame.Prelude.{
  ℕ, ◌≡◌, refl, Bool, true, false, not, ◌&&◌, Option, none, some, List, [], ◌∷◌, ◌++◌, arith,
  Bool-cases, inl, inr, get_elem?, is_empty,
}
use open_sesame.Prelude.Text.{Text, Unicode}
use open_sesame.Wm.Config.{WmConfig}
use open_sesame.Types.{Window}
use open_sesame.Wm.Mru.{Disk}
use open_sesame.Wm.Hints.{MatchResult, exact, match_input}
use open_sesame.Wm.Snapshot.{Snapshot, build, has_targets}
use open_sesame.Wm.Controller.State.{
  Phase, idle, armed, picking, launching, unlocking, OverlayController, Step, Armed, Picking, Event,
  activate, LaunchResult, Unlocking, modifier_released, backspace, selection_down, confirm, escape,
  dwell_timeout, launch_result, auto_unlock_result, touch_result, unlock_result, ActivationMode,
  forward,
}
use open_sesame.Wm.Controller.Activate.{
  enter, from_idle, is_launcher, on_activate, on_modifier_released, on_dwell_timeout,
}
use open_sesame.Wm.Controller.Input.{on_backspace, on_confirm, on_escape, navigate}
use open_sesame.Wm.Controller.Typing.{on_match, accepts, on_char}
use open_sesame.Wm.Controller.Unlock.{
  on_launch_result, advance_to_next_profile_or_retry, on_auto_unlock_result, on_touch_result,
  on_unlock_result,
}
use open_sesame.Wm.Controller.Rules.{at, is_activation, is_navigation, is_exit}
use open_sesame.Wm.Controller.Commit.{activations, launches, retried, Commits, IsQuiet}

pub activation-IsQuiet :
    (e : Event) (p : Phase) (s : Step) → is_activation e ≡ true → IsQuiet s → Commits e p s
activation-IsQuiet activate p s is q = record { windows = q.no_window; applications = q.no_launch }
activation-IsQuiet e p s is q = ground arith

pub navigation-IsQuiet :
    (e : Event) (p : Phase) (s : Step) → is_navigation e ≡ true → IsQuiet s → Commits e p s
navigation-IsQuiet selection_down p s is q = record {
  windows = q.no_window;
  applications = q.no_launch;
}
navigation-IsQuiet e p s is q = ground arith

pub exit-IsQuiet : (e : Event) (p : Phase) (s : Step) → is_exit e ≡ true → IsQuiet s → Commits e p s
exit-IsQuiet escape p s is q = record { windows = q.no_window; applications = q.no_launch }
exit-IsQuiet e p s is q = ground arith

enter-IsQuiet :
    (mode : ActivationMode) (now : ℕ) (config : WmConfig) (snap : Snapshot) (c : OverlayController)
    → IsQuiet (enter mode now config snap c)
unfolding enter
enter-IsQuiet forward now config snap c = ground arith
enter-IsQuiet _ now config snap c = ground arith

from_idle-IsQuiet :
    (mode : ActivationMode) (now : ℕ) (config : WmConfig) (built : Snapshot × Disk)
    (last : Option ℕ)
    → IsQuiet (from_idle mode now config built (at idle last)).0
from_idle-IsQuiet mode now config (snap, disk) last =
    elim (Bool-cases (not (is_launcher mode) && not (has_targets snap))) [
      | inl refused ↦ rw refused (ground arith)
      | inr entered ↦ rw entered (enter-IsQuiet mode now config snap (at idle last))
    ]

pub on_activate-IsQuiet :
    (u : Unicode) (windows : List Window) (config : WmConfig) (mode : ActivationMode) (now : ℕ)
    (disk : Disk) (p : Phase) (last : Option ℕ)
    → IsQuiet (on_activate u windows config mode now disk (at p last)).0
unfolding on_activate
on_activate-IsQuiet u windows config mode now disk idle last =
    from_idle-IsQuiet mode now config (build u windows config disk) last
on_activate-IsQuiet u windows config mode now disk (armed a) last = ground arith
on_activate-IsQuiet u windows config mode now disk _ last = ground arith

get_elem?-empty :
    (windows : List Window) (i : ℕ) → is_empty windows ≡ true → get_elem? windows i ≡ none
get_elem?-empty [] i h = refl
get_elem?-empty (w ∷ windows) i h = cc

pub on_modifier_released-Commits :
    (now : ℕ) (p : Phase) (last : Option ℕ)
    → Commits modifier_released p (on_modifier_released now (at p last))
unfolding on_modifier_released
on_modifier_released-Commits now (armed a) last =
    ground (arith, get_elem?-empty a.snap.windows a.selection)
on_modifier_released-Commits now (picking a) last =
    ground (arith, get_elem?-empty a.snap.windows a.selection)
on_modifier_released-Commits now _ last = ground arith

on_match-IsQuiet_armed :
    (u : Unicode) (r : MatchResult) (a : Armed) (last : Option ℕ)
    → IsQuiet (on_match u r true a.input a.snap (at (armed a) last))
unfolding on_match
on_match-IsQuiet_armed u (exact i) a last = ground arith
on_match-IsQuiet_armed u _ a last = ground arith

on_match-IsQuiet_picking :
    (u : Unicode) (r : MatchResult) (a : Picking) (last : Option ℕ)
    → IsQuiet (on_match u r false a.input a.snap (at (picking a) last))
unfolding on_match
on_match-IsQuiet_picking u (exact i) a last = ground arith
on_match-IsQuiet_picking u _ a last = ground arith

pub on_char-IsQuiet :
    (u : Unicode) (ch : ℕ) (p : Phase) (last : Option ℕ) → IsQuiet (on_char u ch (at p last))
unfolding on_char
on_char-IsQuiet u ch (armed a) last =
    let typed = record a { input = a.input ++ ch ∷ [] } in
    elim (Bool-cases (accepts u a.input ch)) [
      | inl taken ↦
          rw taken (on_match-IsQuiet_armed u (match_input u typed.input a.snap.hints) typed last)
      | inr refused ↦ rw refused (ground arith)
    ]
on_char-IsQuiet u ch (picking a) last =
    let typed = record a { input = a.input ++ ch ∷ [] } in
    elim (Bool-cases (accepts u a.input ch)) [
      | inl taken ↦
          rw taken (on_match-IsQuiet_picking u (match_input u typed.input a.snap.hints) typed last)
      | inr refused ↦ rw refused (ground arith)
    ]
on_char-IsQuiet u ch _ last = ground arith

pub on_backspace-Commits :
    (p : Phase) (last : Option ℕ) → Commits backspace p (on_backspace (at p last))
unfolding on_backspace
on_backspace-Commits (armed a) last = ground arith
on_backspace-Commits _ last = ground arith

pub navigate-IsQuiet :
    (move : ℕ → ℕ → ℕ) (p : Phase) (last : Option ℕ) → IsQuiet (navigate move (at p last))
unfolding navigate
navigate-IsQuiet move (armed a) last = ground arith
navigate-IsQuiet move _ last = ground arith

pub on_escape-IsQuiet : (p : Phase) (last : Option ℕ) → IsQuiet (on_escape (at p last))
unfolding on_escape
on_escape-IsQuiet (armed a) last = ground arith
on_escape-IsQuiet _ last = ground arith

pub on_confirm-Commits :
    (p : Phase) (last : Option ℕ) (s : Step) → on_confirm (at p last) ≡ some s → Commits confirm p s
unfolding on_confirm
on_confirm-Commits (armed a) last s e = ground arith
on_confirm-Commits _ last s e = ground arith

pub on_dwell_timeout-Commits :
    (p : Phase) (last : Option ℕ) → Commits dwell_timeout p (on_dwell_timeout (at p last))
unfolding on_dwell_timeout
on_dwell_timeout-Commits (armed a) last = ground arith
on_dwell_timeout-Commits _ last = ground arith

pub on_launch_result-Commits :
    (r : LaunchResult) (p : Phase) (last : Option ℕ)
    → Commits (launch_result r) p (on_launch_result r (at p last))
unfolding on_launch_result
on_launch_result-Commits r launching last = ground arith
on_launch_result-Commits r _ last = ground arith

-- The next vault or the launch that waited.
record Retries (k : Unlocking) (s : Step) : Type 0 where
  no_window : activations s.1 ≡ []
  launch : launches s.1 ≡ retried true k

advance-Retries :
    (k : Unlocking) (c : OverlayController) → Retries k (advance_to_next_profile_or_retry k c)
unfolding advance_to_next_profile_or_retry
advance-Retries k c = ground arith

pub on_auto_unlock_result-Commits :
    (success : Bool) (profile : Text) (touch : Bool) (p : Phase) (last : Option ℕ)
    → Commits
        (auto_unlock_result success profile touch)
        p
        (on_auto_unlock_result success profile touch (at p last))
unfolding on_auto_unlock_result
on_auto_unlock_result-Commits success profile touch (unlocking k) last =
    ground (arith, advance-Retries k (at (unlocking k) last))
on_auto_unlock_result-Commits success profile touch _ last = ground arith

pub on_touch_result-Commits :
    (success : Bool) (profile : Text) (p : Phase) (last : Option ℕ)
    → Commits (touch_result success profile) p (on_touch_result success profile (at p last))
unfolding on_touch_result
on_touch_result-Commits success profile (unlocking k) last =
    ground (arith, advance-Retries k (at (unlocking k) last))
on_touch_result-Commits success profile _ last = ground arith

pub on_unlock_result-Commits :
    (success : Bool) (profile : Text) (p : Phase) (last : Option ℕ)
    → Commits (unlock_result success profile) p (on_unlock_result success profile (at p last))
unfolding on_unlock_result
on_unlock_result-Commits success profile (unlocking k) last =
    ground (arith, advance-Retries k (at (unlocking k) last))
on_unlock_result-Commits success profile _ last = ground arith
