-- ===== src/Wm/Controller/Valid/Select.antt =====
-- The invariant under activation, release, the dwell timer and navigation.
use open_sesame.Prelude.{
  ℕ, ◌-◌, ◌≤◌, ◌<◌, ◌≡◌, sym, subst, Bool, true, false, not, Option, List, arith, ◌&&◌, inl, inr,
  length, is_empty, length-pos, Bool-cases,
}
use open_sesame.Prelude.Text.{Unicode}
use open_sesame.Wm.Snapshot.{Snapshot, build, has_targets}
use open_sesame.Wm.Snapshot.Shape.{
  IsParallel, build-IsParallel, initial_forward-le, initial_backward-le,
}
use open_sesame.Wm.Controller.State.{
  Phase, idle, armed, picking, OverlayController, ActivationMode, forward, backward, launcher,
  launcher_backward,
}
use open_sesame.Wm.Controller.Activate.{
  reselect, cycle, on_activate, enter, from_idle, is_launcher, on_modifier_released,
  on_dwell_timeout,
}
use open_sesame.Wm.Controller.Input.{
  down, up, is_reactivation_duplicate, unless_duplicate, on_selection_down, on_selection_up, moved,
  navigate,
}
use open_sesame.Types.{Window}
use open_sesame.Wm.Config.{WmConfig}
use open_sesame.Wm.Mru.{Disk}
use open_sesame.Wm.Controller.Valid.{IsValid}

cycle-le : (mode : ActivationMode) (i len : ℕ) → 0 < len → cycle mode i len ≤ len - 1
unfolding cycle
cycle-le forward i len h = grind arith
cycle-le _ i len h = grind arith

reselect-le :
    (mode : ActivationMode) (snap : Snapshot) (i : ℕ)
    → i ≤ length snap.windows - 1
    → reselect mode snap i ≤ length snap.windows - 1
unfolding reselect
reselect-le mode snap i h =
    ground (arith, length-pos snap.windows, cycle-le mode i (length snap.windows))

moved-le-down :
    (snap : Snapshot) (i : ℕ)
    → i ≤ length snap.windows - 1
    → moved down snap i ≤ length snap.windows - 1
unfolding down
moved-le-down snap i h = elim (Bool-cases (is_empty snap.windows)) [
  | inl e ↦ rw e h
  | inr e ↦ let p = length-pos snap.windows e in rw e (grind arith)
]

moved-le-up :
    (snap : Snapshot) (i : ℕ)
    → i ≤ length snap.windows - 1
    → moved up snap i ≤ length snap.windows - 1
unfolding up
moved-le-up snap i h = ground arith

enter-IsValid :
    (mode : ActivationMode) (now : ℕ) (config : WmConfig) (snap : Snapshot) (c : OverlayController)
    → IsParallel snap
    → IsValid (enter mode now config snap c).0.phase
unfolding enter
enter-IsValid forward now config snap c h = ground (arith, initial_forward-le snap)
enter-IsValid backward now config snap c h = ground (arith, initial_backward-le snap)
enter-IsValid launcher now config snap c h = ground (arith, initial_forward-le snap)
enter-IsValid launcher_backward now config snap c h = ground (arith, initial_backward-le snap)

from_idle-IsValid :
    (mode : ActivationMode) (now : ℕ) (config : WmConfig) (built : Snapshot × Disk)
    (last : Option ℕ)
    → IsParallel built.0
    → IsValid
        (from_idle mode now config built
          (record { phase = idle; last_ipc_advance = last })).0.0.phase
from_idle-IsValid mode now config (snap, disk) last h =
    elim (Bool-cases (not (is_launcher mode) && not (has_targets snap))) [
      | inl refused ↦ rw refused tt
      | inr entered ↦ rw entered (enter-IsValid mode now config snap _ h)
    ]

module _ (u : Unicode) where
  pub on_activate-IsValid :
      (windows : List Window) (config : WmConfig) (mode : ActivationMode) (now : ℕ) (disk : Disk)
      (p : Phase) (last : Option ℕ)
      → IsValid p
      → IsValid
          (on_activate u windows config mode now disk
            (record { phase = p; last_ipc_advance = last })).0.0.phase
  unfolding on_activate enter
  on_activate-IsValid windows config mode now disk idle last v =
      from_idle-IsValid mode now config (build u windows config disk) last
        (build-IsParallel u windows config disk)
  on_activate-IsValid windows config mode now disk (armed a) last v = record {
    parallel = v.parallel;
    selected = reselect-le mode a.snap a.selection v.selected;
    short = v.short;
    single_key = v.single_key;
  }
  on_activate-IsValid windows config mode now disk (picking a) last v = record {
    parallel = v.parallel;
    selected = reselect-le mode a.snap a.selection v.selected;
    short = v.short;
    single_key = v.single_key;
  }
  on_activate-IsValid windows config mode now disk _ last v = v

pub on_modifier_released-IsValid :
    (now : ℕ) (p : Phase) (last : Option ℕ)
    → IsValid p
    → IsValid (on_modifier_released now (record { phase = p; last_ipc_advance = last })).0.phase
unfolding on_modifier_released
on_modifier_released-IsValid now (armed a) last v = ground arith
on_modifier_released-IsValid now (picking a) last v = ground arith
on_modifier_released-IsValid now _ last v = v

pub on_dwell_timeout-IsValid :
    (p : Phase) (last : Option ℕ)
    → IsValid p
    → IsValid (on_dwell_timeout (record { phase = p; last_ipc_advance = last })).0.phase
unfolding on_dwell_timeout
on_dwell_timeout-IsValid (armed a) last v = ground arith
on_dwell_timeout-IsValid _ last v = v

navigate-IsValid :
    (move : ℕ → ℕ → ℕ) (p : Phase) (last : Option ℕ)
    → ((snap : Snapshot) (i : ℕ)
        → i ≤ length snap.windows - 1
        → moved move snap i ≤ length snap.windows - 1)
    → IsValid p
    → IsValid (navigate move (record { phase = p; last_ipc_advance = last })).0.phase
unfolding navigate
navigate-IsValid move (armed a) last keep v = record {
  parallel = v.parallel;
  selected = keep a.snap a.selection v.selected;
  short = v.short;
  single_key = v.single_key;
}
navigate-IsValid move (picking a) last keep v = record {
  parallel = v.parallel;
  selected = keep a.snap a.selection v.selected;
  short = v.short;
  single_key = v.single_key;
}
navigate-IsValid move _ last keep v = v

is_reactivation_duplicate-phase :
    (now : ℕ) (c : OverlayController) → (is_reactivation_duplicate now c).1.phase ≡ c.phase
unfolding is_reactivation_duplicate
is_reactivation_duplicate-phase now c = ground arith

unless_duplicate-IsValid :
    (move : ℕ → ℕ → ℕ) (r : Bool × OverlayController)
    → ((snap : Snapshot) (i : ℕ)
        → i ≤ length snap.windows - 1
        → moved move snap i ≤ length snap.windows - 1)
    → IsValid r.1.phase
    → IsValid (unless_duplicate move r).0.phase
unless_duplicate-IsValid move (true, c) keep v = v
unless_duplicate-IsValid move (false, c) keep v =
    navigate-IsValid move c.phase c.last_ipc_advance keep v

module _ (now : ℕ) (c : OverlayController) (v : IsValid c.phase) where
  checked : IsValid (is_reactivation_duplicate now c).1.phase
  checked = subst IsValid (sym (is_reactivation_duplicate-phase now c)) v

  pub on_selection_down-IsValid : IsValid (on_selection_down now c).0.phase
  unfolding on_selection_down
  on_selection_down-IsValid =
      unless_duplicate-IsValid down (is_reactivation_duplicate now c) moved-le-down checked

  pub on_selection_up-IsValid : IsValid (on_selection_up now c).0.phase
  unfolding on_selection_up
  on_selection_up-IsValid =
      unless_duplicate-IsValid up (is_reactivation_duplicate now c) moved-le-up checked
