-- ===== src/Wm/Controller/Typing.antt =====
-- daemon-wm/src/controller.rs: typed characters, and what they select or stage.
use open_sesame.Prelude.{
  ℕ, ◌+◌, Bool, true, false, Option, none, some, [], ◌∷◌, ◌++◌, ltb, ◌==◌, if◌then◌else◌, first,
}
use open_sesame.Prelude.Text.{Text, Unicode, str_len}
use open_sesame.Wm.Config.{KeyBindings}
use open_sesame.Wm.Hints.{
  MatchResult, no_match, partial, exact, match_input, launch_for_key, tags_for_key,
  launch_args_for_key,
}
use open_sesame.Wm.Snapshot.{Snapshot}
use open_sesame.Wm.Controller.State.{
  Command, show_picker, update_picker, hide, show_launch_staged, password_char, PendingLaunch,
  UnlockMode, password, Armed, Picking, Unlocking, idle, armed, picking, launch_error, unlocking,
  OverlayController, max_input_length, Step,
}
use open_sesame.Wm.Controller.Activate.{to_picking, dismissed}

unfoldable pub current_selection : OverlayController → ℕ
current_selection c = elim c.phase [ armed a ↦ a.selection | picking p ↦ p.selection | _ ↦ 0 ]

unfoldable pub update_selection : ℕ → OverlayController → OverlayController
update_selection idx c = elim c.phase [
  | armed a ↦ record c { phase = armed (record a { selection = idx }) }
  | picking p ↦ record c { phase = picking (record p { selection = idx }) }
  | _ ↦ c
]

unfoldable pub put_pending_launch : Option PendingLaunch → OverlayController → OverlayController
put_pending_launch launch c = elim c.phase [
  | armed a ↦ record c { phase = armed (record a { pending_launch = launch }) }
  | picking p ↦ record c { phase = picking (record p { pending_launch = launch }) }
  | _ ↦ c
]

unfoldable pub set_pending_launch : PendingLaunch → OverlayController → OverlayController
unfolding put_pending_launch
set_pending_launch launch = put_pending_launch (some launch)

unfoldable pub clear_pending_launch : OverlayController → OverlayController
unfolding put_pending_launch
clear_pending_launch = put_pending_launch none

unfoldable pub transition_armed_to_picking : OverlayController → Step
unfolding to_picking
transition_armed_to_picking c = elim c.phase [
  | armed a ↦ (
    record c { phase = picking (to_picking a) },
    show_picker a.snap.overlay_windows a.snap.hints ∷ update_picker a.input a.selection ∷ [],
  )
  | _ ↦ (c, [])
]

-- The answer to a changed input: the picker comes up, or is brought up to date.
unfoldable pub show_input : Bool → Text → OverlayController → Step
unfolding transition_armed_to_picking current_selection
show_input is_armed input c =
    if is_armed
    then transition_armed_to_picking c
    else (c, update_picker input (current_selection c) ∷ [])

unfoldable pub select_hint : Bool → Text → ℕ → OverlayController → Step
unfolding transition_armed_to_picking clear_pending_launch update_selection
select_hint is_armed input idx c =
    let selected = clear_pending_launch (update_selection idx c) in
    if is_armed
    then transition_armed_to_picking selected
    else (selected, update_picker input idx ∷ [])

abbrev append_command : Step → Command → Step
append_command (c, commands) command = (c, commands ++ command ∷ [])

unfoldable pub stage_launch : Bool → Text → PendingLaunch → OverlayController → Step
unfolding show_input set_pending_launch
stage_launch is_armed input launch c =
    append_command (show_input is_armed input (set_pending_launch launch c))
      (show_launch_staged launch.command)

unfoldable pub clear_and_show : Bool → Text → OverlayController → Step
unfolding show_input clear_pending_launch
clear_and_show is_armed input c = show_input is_armed input (clear_pending_launch c)

module _ (u : Unicode) where
  -- The launch that a key of one byte stages, if it is bound to one.
  unfoldable pub launch_of : Text → KeyBindings → Option PendingLaunch
  launch_of input bindings = elim (first input) [
    | none ↦ none
    | some key ↦ elim (launch_for_key u key bindings) [
      | none ↦ none
      | some command ↦ some (record {
        command = command;
        tags = tags_for_key u key bindings;
        launch_args = launch_args_for_key u key bindings;
      })
    ]
  ]

  unfoldable pub no_hint : Bool → Text → KeyBindings → OverlayController → Step
  unfolding stage_launch clear_and_show
  no_hint is_armed input bindings c =
      elim (if str_len input == 1 then launch_of input bindings else none) [
        | some launch ↦ stage_launch is_armed input launch c
        | none ↦ clear_and_show is_armed input c
      ]

  -- The three results of the match.
  unfoldable pub on_match : MatchResult → Bool → Text → Snapshot → OverlayController → Step
  unfolding select_hint no_hint clear_and_show
  on_match (exact idx) is_armed input snap c = select_hint is_armed input idx c
  on_match no_match is_armed input snap c = no_hint is_armed input snap.key_bindings c
  on_match (partial _) is_armed input snap c = clear_and_show is_armed input c

  unfoldable pub check_hint_or_launch : Bool → Text → Snapshot → OverlayController → Step
  unfolding on_match
  check_hint_or_launch is_armed input snap c =
      on_match (match_input u input snap.hints) is_armed input snap c

  abbrev pub accepts : Text → ℕ → Bool
  accepts input ch = if u.is_alphanumeric ch then ltb (str_len input) max_input_length else false

  unfoldable pub type_armed : ℕ → Armed → OverlayController → Step
  unfolding check_hint_or_launch
  type_armed ch a c =
      let input = a.input ++ ch ∷ [] in
      let typed = record c { phase = armed (record a { input = input }) } in
      if accepts a.input ch then check_hint_or_launch true input a.snap typed else (c, [])

  unfoldable pub type_picking : ℕ → Picking → OverlayController → Step
  unfolding check_hint_or_launch
  type_picking ch p c =
      let input = p.input ++ ch ∷ [] in
      let typed = record c { phase = picking (record p { input = input }) } in
      if accepts p.input ch then check_hint_or_launch false input p.snap typed else (c, [])

abbrev pub is_password : UnlockMode → Bool
is_password password = true
is_password _ = false

unfoldable pub type_password : ℕ → Unlocking → OverlayController → Step
type_password ch k c =
    if is_password k.unlock_mode
    then (
      record c { phase = unlocking (record k { password_len = k.password_len + 1 }) },
      password_char ch ∷ [],
    )
    else (c, [])

unfoldable pub on_char : Unicode → ℕ → OverlayController → Step
unfolding type_armed type_picking type_password
on_char u ch c = elim c.phase [
  | armed a ↦ type_armed u ch a c
  | picking p ↦ type_picking u ch p c
  | unlocking k ↦ type_password ch k c
  | launch_error ↦ (record c { phase = idle }, dismissed hide)
  | _ ↦ (c, [])
]
