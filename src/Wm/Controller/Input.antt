-- ===== src/Wm/Controller/Input.antt =====
-- daemon-wm/src/controller.rs: typed characters, navigation, backspace, confirm and escape.
use open_sesame.Prelude.{
  ℕ, ◌+◌, ◌-◌, ◌%◌, Bool, true, false, Option, none, some, [], ◌∷◌, ltb, ◌==◌, if◌then◌else◌,
  is_empty, length, get_elem?, drop_last,
}
use open_sesame.Prelude.Text.{Text}
use open_sesame.Wm.Snapshot.{Snapshot}
use open_sesame.Wm.Controller.State.{
  update_picker, hide, password_backspace, submit_password_unlock, clear_password_buffer,
  PendingLaunch, verifying, Unlocking, idle, armed, picking, launch_error, unlocking,
  OverlayController, elapsed_ms, reactivation_dedup_ms, Step,
}
use open_sesame.Wm.Controller.Activate.{dismissed, activate_index}
use open_sesame.Wm.Controller.Typing.{transition_armed_to_picking, is_password}

-- Whether the key repeats a re-activation, and the controller with the mark used up.
unfoldable pub is_reactivation_duplicate : ℕ → OverlayController → Bool × OverlayController
is_reactivation_duplicate now c = elim c.last_ipc_advance [
  | none ↦ (false, c)
  | some ts ↦ (ltb (elapsed_ms now ts) reactivation_dedup_ms, record c { last_ipc_advance = none })
]

unfoldable pub down : ℕ → ℕ → ℕ
down selection len = (selection + 1) % len

unfoldable pub up : ℕ → ℕ → ℕ
up selection len = if selection == 0 then len - 1 else selection - 1

abbrev pub moved : (ℕ → ℕ → ℕ) → Snapshot → ℕ → ℕ
moved move snap selection =
    if is_empty snap.windows then selection else move selection (length snap.windows)

-- `on_selection_down` and `on_selection_up` behind the check for a duplicate.
unfoldable pub navigate : (ℕ → ℕ → ℕ) → OverlayController → Step
unfolding transition_armed_to_picking
navigate move c = elim c.phase [
  | armed a ↦
      transition_armed_to_picking
        (record c { phase = armed (record a { selection = moved move a.snap a.selection }) })
  | picking p ↦ (
    record c { phase = picking (record p { selection = moved move p.snap p.selection }) },
    update_picker p.input (moved move p.snap p.selection) ∷ [],
  )
  | _ ↦ (c, [])
]

abbrev pub unless_duplicate : (ℕ → ℕ → ℕ) → Bool × OverlayController → Step
unless_duplicate move (true, c) = (c, [])
unless_duplicate move (false, c) = navigate move c

unfoldable pub on_selection_down : ℕ → OverlayController → Step
unfolding navigate is_reactivation_duplicate
on_selection_down now c = unless_duplicate down (is_reactivation_duplicate now c)

unfoldable pub on_selection_up : ℕ → OverlayController → Step
unfolding navigate is_reactivation_duplicate
on_selection_up now c = unless_duplicate up (is_reactivation_duplicate now c)

abbrev kept_launch : Text → Option PendingLaunch → Option PendingLaunch
kept_launch input launch = if is_empty input then none else launch

unfoldable pub erase_password : Unlocking → OverlayController → Step
erase_password k c =
    if is_password k.unlock_mode
    then if ltb 0 k.password_len
      then (
        record c { phase = unlocking (record k { password_len = k.password_len - 1 }) },
        password_backspace ∷ [],
      )
      else (c, [])
    else (c, [])

unfoldable pub on_backspace : OverlayController → Step
unfolding erase_password
on_backspace c = elim c.phase [
  | unlocking k ↦ erase_password k c
  | armed a ↦
      let input = drop_last a.input in
      (
        record c {
          phase =
              armed
                (record a { input = input; pending_launch = kept_launch input a.pending_launch });
        },
        [],
      )
  | picking p ↦
      let input = drop_last p.input in
      (
        record c {
          phase =
              picking
                (record p { input = input; pending_launch = kept_launch input p.pending_launch });
        },
        update_picker input p.selection ∷ [],
      )
  | _ ↦ (c, [])
]

-- The code indexes `profiles_to_unlock[current_index]`, which panics out of range: `none`.
unfoldable pub submit_password : Unlocking → OverlayController → Option Step
submit_password k c =
    if is_password k.unlock_mode
    then elim (get_elem? k.profiles_to_unlock k.current_index) [
      | none ↦ none
      | some profile ↦ some (
        record c { phase = unlocking (record k { unlock_mode = verifying }) },
        submit_password_unlock profile ∷ [],
      )
    ]
    else some (c, [])

unfoldable pub on_confirm : OverlayController → Option Step
unfolding submit_password activate_index
on_confirm c = elim c.phase [
  | unlocking k ↦ submit_password k c
  | armed a ↦ some (activate_index a.selection a.snap)
  | picking p ↦ some (activate_index p.selection p.snap)
  | launch_error ↦ some (record c { phase = idle }, dismissed hide)
  | _ ↦ some (c, [])
]

unfoldable pub on_escape : OverlayController → Step
on_escape c =
    let closed : OverlayController = record { phase = idle; last_ipc_advance = none } in
    elim c.phase [
      | idle ↦ (closed, [])
      | unlocking _ ↦ (closed, clear_password_buffer ∷ dismissed hide)
      | _ ↦ (closed, dismissed hide)
    ]
