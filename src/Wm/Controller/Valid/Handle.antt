-- ===== src/Wm/Controller/Valid/Handle.antt =====
-- The invariant under `handle`, and over every history of the controller.
use open_sesame.Prelude.{◌≡◌, refl, Option, some}
use open_sesame.Prelude.Text.{Unicode}
use open_sesame.Wm.Mru.{Disk}
use open_sesame.Wm.Controller.Valid.{IsValid}
use open_sesame.Wm.Controller.State.{
  Event, activate, activate_backward, activate_launcher, activate_launcher_backward,
  modifier_released, char, backspace, selection_down, selection_up, confirm, escape, dismiss,
  dwell_timeout, launch_result, auto_unlock_result, touch_result, unlock_result, OverlayController,
  Step, forward, backward, launcher, launcher_backward,
}
use open_sesame.Wm.Controller.Handle.{World, handle}
use open_sesame.Wm.Controller.Valid.Select.{
  on_activate-IsValid, on_modifier_released-IsValid, on_dwell_timeout-IsValid,
  on_selection_down-IsValid, on_selection_up-IsValid,
}
use open_sesame.Wm.Controller.Valid.Typing.{
  on_char-IsValid, on_backspace-IsValid, on_confirm-some, on_escape-IsValid,
}
use open_sesame.Wm.Controller.Valid.Unlock.{
  on_launch_result-IsValid, on_auto_unlock_result-IsValid, on_touch_result-IsValid,
  on_unlock_result-IsValid,
}

-- The handler returns, and what it returns is valid.
abbrev Keeps : Option (Step × Disk) → Type 0
Keeps r = (s : Step × Disk) × (r ≡ some s) × IsValid s.0.0.phase

module _ (u : Unicode) where
  -- In a valid state no event makes `handle` index out of range, and the state that it leaves is
  -- valid again.
  pub handle-IsValid :
      (e : Event) (w : World) (c : OverlayController)
      → IsValid c.phase
      → (r : Step × Disk) × (handle u e w c ≡ some r) × IsValid r.0.0.phase
  unfolding handle
  handle-IsValid activate w c v = (
    _,
    refl,
    on_activate-IsValid u w.windows w.config forward w.now w.disk c.phase c.last_ipc_advance v,
  )
  handle-IsValid activate_backward w c v = (
    _,
    refl,
    on_activate-IsValid u w.windows w.config backward w.now w.disk c.phase c.last_ipc_advance v,
  )
  handle-IsValid activate_launcher w c v = (
    _,
    refl,
    on_activate-IsValid u w.windows w.config launcher w.now w.disk c.phase c.last_ipc_advance v,
  )
  handle-IsValid activate_launcher_backward w c v = (
    _,
    refl,
    on_activate-IsValid u w.windows w.config launcher_backward w.now w.disk c.phase
        c.last_ipc_advance v,
  )
  handle-IsValid modifier_released w c v =
      (_, refl, on_modifier_released-IsValid w.now c.phase c.last_ipc_advance v)
  handle-IsValid (char ch) w c v = (_, refl, on_char-IsValid u ch c.phase c.last_ipc_advance v)
  handle-IsValid backspace w c v = (_, refl, on_backspace-IsValid c.phase c.last_ipc_advance v)
  handle-IsValid selection_down w c v = (_, refl, on_selection_down-IsValid w.now c v)
  handle-IsValid selection_up w c v = (_, refl, on_selection_up-IsValid w.now c v)
  handle-IsValid confirm w c v =
      let (s, e, kept) = on_confirm-some c.phase c.last_ipc_advance v in ((s, w.disk), rw e, kept)
  handle-IsValid escape w c v = (_, refl, on_escape-IsValid c.phase c.last_ipc_advance)
  handle-IsValid dismiss w c v = (_, refl, on_escape-IsValid c.phase c.last_ipc_advance)
  handle-IsValid dwell_timeout w c v =
      (_, refl, on_dwell_timeout-IsValid c.phase c.last_ipc_advance v)
  handle-IsValid (launch_result r) w c v =
      (_, refl, on_launch_result-IsValid r c.phase c.last_ipc_advance v)
  handle-IsValid (auto_unlock_result success profile touch) w c v =
      (_, refl, on_auto_unlock_result-IsValid success profile touch c.phase c.last_ipc_advance v)
  handle-IsValid (touch_result success profile) w c v =
      (_, refl, on_touch_result-IsValid success profile c.phase c.last_ipc_advance v)
  handle-IsValid (unlock_result success profile) w c v =
      (_, refl, on_unlock_result-IsValid success profile c.phase c.last_ipc_advance v)
