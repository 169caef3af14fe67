-- ===== src/Wm/Controller/Handle.antt =====
-- daemon-wm/src/controller.rs: `handle`, the dispatch of an event.
use open_sesame.Prelude.{ℕ, Option, none, ◌≡◌, some, List, [], ◌∷◌, ◌++◌}
use open_sesame.Prelude.Text.{Unicode}
use open_sesame.Types.{Window}
use open_sesame.Wm.Config.{WmConfig}
use open_sesame.Wm.Mru.{Disk}
use open_sesame.Wm.Controller.State.{
  Command, Event, activate, activate_backward, activate_launcher, activate_launcher_backward,
  modifier_released, char, backspace, selection_down, selection_up, confirm, escape, dismiss,
  dwell_timeout, launch_result, auto_unlock_result, touch_result, unlock_result, forward, backward,
  launcher, launcher_backward, OverlayController, Step,
}
use open_sesame.Wm.Controller.Activate.{on_activate, on_modifier_released, on_dwell_timeout}
use open_sesame.Wm.Controller.Input.{
  on_selection_down, on_selection_up, on_backspace, on_confirm, on_escape,
}
use open_sesame.Wm.Controller.Typing.{on_char}
use open_sesame.Wm.Controller.Unlock.{
  on_launch_result, on_auto_unlock_result, on_touch_result, on_unlock_result,
}

-- What surrounds a call: the windows and the settings, the time, and the disk with the MRU file.
pub record World : Type 0 where
  pub windows : List Window
  pub config : WmConfig
  pub now : ℕ
  pub disk : Disk

abbrev on_disk : Disk → Step → Option (Step × Disk)
on_disk disk step = some (step, disk)

abbrev attempted : Disk → Option Step → Option (Step × Disk)
attempted disk none = none
attempted disk (some step) = some (step, disk)

-- `none` is the panic of an index out of range.
module _ (u : Unicode) where
  unfoldable pub handle : Event → World → OverlayController → Option (Step × Disk)
  handle activate w c = some (on_activate u w.windows w.config forward w.now w.disk c)
  handle activate_backward w c = some (on_activate u w.windows w.config backward w.now w.disk c)
  handle activate_launcher w c = some (on_activate u w.windows w.config launcher w.now w.disk c)
  handle activate_launcher_backward w c =
      some (on_activate u w.windows w.config launcher_backward w.now w.disk c)
  handle modifier_released w c = on_disk w.disk (on_modifier_released w.now c)
  handle (char ch) w c = on_disk w.disk (on_char u ch c)
  handle backspace w c = on_disk w.disk (on_backspace c)
  handle selection_down w c = on_disk w.disk (on_selection_down w.now c)
  handle selection_up w c = on_disk w.disk (on_selection_up w.now c)
  handle confirm w c = attempted w.disk (on_confirm c)
  handle escape w c = on_disk w.disk (on_escape c)
  handle dismiss w c = on_disk w.disk (on_escape c)
  handle dwell_timeout w c = on_disk w.disk (on_dwell_timeout c)
  handle (launch_result r) w c = on_disk w.disk (on_launch_result r c)
  handle (auto_unlock_result success profile needs_touch) w c =
      on_disk w.disk (on_auto_unlock_result success profile needs_touch c)
  handle (touch_result success profile) w c = on_disk w.disk (on_touch_result success profile c)
  handle (unlock_result success profile) w c = on_disk w.disk (on_unlock_result success profile c)

abbrev prepend : List Command → Option Step → Option Step
prepend commands none = none
prepend commands (some (c, later)) = some (c, commands ++ later)

-- The event loop of daemon-wm/src/main.rs around the controller: the events in order, each in its
-- own world, and all the commands.
module _ (u : Unicode) where
  unfoldable pub run : List (Event × World) → OverlayController → Option Step
  run [] c = some (c, [])
  run ((e, w) ∷ rest) c = elim (handle u e w c) [
    | none ↦ none
    | some r ↦ prepend r.0.1 (run rest r.0.0)
  ]

  pub run-cons :
      (e : Event) (w : World) (rest : List (Event × World)) (c : OverlayController)
      (r : Step × Disk) (s : Step)
      → handle u e w c ≡ some r
      → run rest r.0.0 ≡ some s
      → run ((e, w) ∷ rest) c ≡ some (s.0, r.0.1 ++ s.1)
  unfolding run
  run-cons e w rest c r s first later = rw (first, run) (rw later)
