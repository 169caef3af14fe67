-- ===== src/Wm/Controller/State.antt =====
-- daemon-wm/src/controller.rs: the commands, the events, the phases and the controller's state.
use open_sesame.Prelude.{
  ℕ, ◌+◌, ◌-◌, ◌*◌, ◌/◌, Bool, true, false, Option, none, some, List, get_elem?,
}
use open_sesame.Prelude.Text.{Text}
use open_sesame.Types.{Window, SecurityLevel, LaunchDenial}
use open_sesame.Wm.Snapshot.{Snapshot, WindowInfo}

abbrev pub max_input_length : ℕ
max_input_length = 64

-- Of core-types/src/events.rs, the two kinds that the controller publishes.
pub data EventKind : Type 0 where
  wm_overlay_shown wm_overlay_dismissed : EventKind

pub data Command : Type 0 where
  show_border : Bool → Command
  show_picker : List WindowInfo → List Text → Command
  update_picker : Text → ℕ → Command
  hide_and_sync : Command
  hide : Command
  activate_window : Window → Command
  launch_app : Text → List Text → List Text → Command
  show_launch_error : Text → Option LaunchDenial → Command
  show_launching : Command
  show_launch_staged : Text → Command
  reset_grace : Command
  publish : EventKind → SecurityLevel → Command
  attempt_auto_unlock : Text → Command
  show_password_prompt : Text → Command
  show_touch_prompt : Text → Command
  show_auto_unlock_progress : Text → Command
  show_verifying : Command
  password_char : ℕ → Command
  password_backspace : Command
  submit_password_unlock : Text → Command
  clear_password_buffer : Command
  show_unlock_error : Text → Command
  activate_profiles : List Text → Command

pub record LaunchResult : Type 0 where
  pub success : Bool
  pub error : Option Text
  pub denial : Option LaunchDenial
  pub original_command : Option Text
  pub original_tags : Option (List Text)
  pub original_launch_args : Option (List Text)

pub data Event : Type 0 where
  activate activate_backward activate_launcher activate_launcher_backward : Event
  modifier_released : Event
  char : ℕ → Event
  backspace selection_down selection_up confirm escape dismiss dwell_timeout : Event
  launch_result : LaunchResult → Event
  auto_unlock_result : Bool → Text → Bool → Event
  touch_result : Bool → Text → Event
  unlock_result : Bool → Text → Event

pub record PendingLaunch : Type 0 where
  pub command : Text
  pub tags : List Text
  pub launch_args : List Text

pub data UnlockMode : Type 0 where
  auto_attempt waiting_for_touch password verifying : UnlockMode

-- An `Instant` is the number of nanoseconds since some origin.
pub record Armed : Type 0 where
  pub entered_at : ℕ
  pub snap : Snapshot
  pub selection : ℕ
  pub input : Text
  pub dwell_ms : ℕ
  pub pending_launch : Option PendingLaunch

pub record Picking : Type 0 where
  pub snap : Snapshot
  pub selection : ℕ
  pub input : Text
  pub pending_launch : Option PendingLaunch

pub record Unlocking : Type 0 where
  pub profiles_to_unlock : List Text
  pub current_index : ℕ
  pub password_len : ℕ
  pub unlock_mode : UnlockMode
  pub retry_command : Text
  pub retry_tags : List Text
  pub retry_launch_args : List Text

pub data Phase : Type 0 where
  idle : Phase
  armed : Armed → Phase
  picking : Picking → Phase
  launching : Phase
  launch_error : Phase
  unlocking : Unlocking → Phase

pub data ActivationMode : Type 0 where
  forward backward launcher launcher_backward : ActivationMode

abbrev pub reactivation_dedup_ms : ℕ
reactivation_dedup_ms = 100

pub record OverlayController : Type 0 where
  pub phase : Phase
  pub last_ipc_advance : Option ℕ

-- `elapsed().as_millis()`, saturating as `Instant` does.
abbrev pub elapsed_ms : ℕ → ℕ → ℕ
elapsed_ms now since = (now - since) / 1000000

-- What a handler returns: the controller and the commands.
abbrev pub Step : Type 0
Step = OverlayController × List Command

unfoldable pub new : OverlayController
new = record { phase = idle; last_ipc_advance = none }

unfoldable pub next_deadline : OverlayController → Option ℕ
next_deadline c = elim c.phase [ armed a ↦ some (a.entered_at + a.dwell_ms * 1000000) | _ ↦ none ]

unfoldable pub is_idle : OverlayController → Bool
is_idle c = elim c.phase [ idle ↦ true | _ ↦ false ]

unfoldable pub force_idle : OverlayController → OverlayController
force_idle c = record { phase = idle; last_ipc_advance = none }

unfoldable pub current_unlock_profile : OverlayController → Option Text
current_unlock_profile c = elim c.phase [
  | unlocking k ↦ get_elem? k.profiles_to_unlock k.current_index
  | _ ↦ none
]
