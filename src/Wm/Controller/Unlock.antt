-- ===== src/Wm/Controller/Unlock.antt =====
-- daemon-wm/src/controller.rs: the result of a launch, and the unlocking of the vaults it needs.
use mathlib.Core.Option
use open_sesame.Prelude.{suc, Bool, Option, none, some, List, [], ◌∷◌, if◌then◌else◌, get_elem?}
use open_sesame.Prelude.Text.{Text, codes}
use open_sesame.Types.{LaunchDenial, vaults_locked}
use open_sesame.Wm.Controller.State.{
  hide, launch_app, show_launch_error, show_launching, attempt_auto_unlock, show_password_prompt,
  show_touch_prompt, clear_password_buffer, show_unlock_error, activate_profiles, LaunchResult,
  UnlockMode, auto_attempt, waiting_for_touch, password, Unlocking, idle, launching, launch_error,
  unlocking, OverlayController, Step,
}
use open_sesame.Wm.Controller.Activate.{dismissed}

-- The vaults to unlock before a retry: the denial names one, and the launch can be repeated.
unfoldable pub unlock_plan :
    Option LaunchDenial
    → Option Text
    → Option (List Text)
    → Option (List Text)
    → Option (Text × Unlocking)
unlock_plan (some (vaults_locked (profile ∷ others))) (some cmd) (some tags) (some args) = some (
  profile,
  record {
    profiles_to_unlock = profile ∷ others;
    current_index = 0;
    password_len = 0;
    unlock_mode = auto_attempt;
    retry_command = cmd;
    retry_tags = tags;
    retry_launch_args = args;
  },
)
unlock_plan _ _ _ _ = none

abbrev message_of : Option Text → Text
message_of error = Option.get_or error (codes "launch failed")

unfoldable pub launch_ended : LaunchResult → OverlayController → Step
launch_ended r c =
    if r.success
    then (record c { phase = idle }, dismissed hide)
    else elim (unlock_plan r.denial r.original_command r.original_tags r.original_launch_args) [
      | some (profile, k) ↦ (record c { phase = unlocking k }, attempt_auto_unlock profile ∷ [])
      | none ↦ (record c { phase = launch_error }, show_launch_error (message_of r.error) none ∷ [])
    ]

unfoldable pub on_launch_result : LaunchResult → OverlayController → Step
unfolding launch_ended
on_launch_result r c = elim c.phase [ launching ↦ launch_ended r c | _ ↦ (c, []) ]

-- `next_index < profiles_to_unlock.len()` and the indexing behind it are one lookup.
unfoldable pub advance_to_next_profile_or_retry : Unlocking → OverlayController → Step
advance_to_next_profile_or_retry k c = elim (get_elem? k.profiles_to_unlock (suc k.current_index)) [
  | some profile ↦ (
    record c {
      phase = unlocking (record k {
        current_index = suc k.current_index;
        password_len = 0;
        unlock_mode = auto_attempt;
      });
    },
    clear_password_buffer ∷ attempt_auto_unlock profile ∷ [],
  )
  | none ↦ (
    record c { phase = launching },
    clear_password_buffer
        ∷ show_launching
        ∷ activate_profiles k.profiles_to_unlock
        ∷ launch_app k.retry_command k.retry_tags k.retry_launch_args
        ∷ [],
  )
]

abbrev with_mode : UnlockMode → Unlocking → OverlayController → OverlayController
with_mode mode k c = record c { phase = unlocking (record k { unlock_mode = mode }) }

unfoldable pub on_auto_unlock_result : Bool → Text → Bool → OverlayController → Step
unfolding advance_to_next_profile_or_retry
on_auto_unlock_result success profile needs_touch c = elim c.phase [
  | unlocking k ↦
      if success
      then advance_to_next_profile_or_retry k c
      else if needs_touch
      then (with_mode waiting_for_touch k c, show_touch_prompt profile ∷ [])
      else (with_mode password k c, show_password_prompt profile ∷ [])
  | _ ↦ (c, [])
]

unfoldable pub on_touch_result : Bool → Text → OverlayController → Step
unfolding advance_to_next_profile_or_retry
on_touch_result success profile c = elim c.phase [
  | unlocking k ↦ if success then advance_to_next_profile_or_retry k c else (
    with_mode password k c,
    show_password_prompt profile ∷ show_unlock_error (codes "Touch verification failed") ∷ [],
  )
  | _ ↦ (c, [])
]

unfoldable pub on_unlock_result : Bool → Text → OverlayController → Step
unfolding advance_to_next_profile_or_retry
on_unlock_result success profile c = elim c.phase [
  | unlocking k ↦ if success then advance_to_next_profile_or_retry k c else (
    with_mode password (record k { password_len = 0 }) c,
    clear_password_buffer
        ∷ show_password_prompt profile
        ∷ show_unlock_error (codes "Wrong password")
        ∷ [],
  )
  | _ ↦ (c, [])
]
