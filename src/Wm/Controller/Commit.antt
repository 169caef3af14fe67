-- ===== src/Wm/Controller/Commit.antt =====
-- What the controller commits to: windows activated and applications launched.
pub mod Steps
pub mod Every
use open_sesame.Prelude.{◌≡◌, Bool, true, false, Option, suc, none, some, List, [], ◌∷◌, get_elem?}
use open_sesame.Types.{Window}
use open_sesame.Wm.Controller.State.{
  Command, activate_window, launch_app, Phase, armed, picking, unlocking, Step, Event, Unlocking,
  modifier_released, confirm, auto_unlock_result, touch_result, unlock_result, PendingLaunch,
}

abbrev window_of : Command → List Window → List Window
window_of (activate_window w) windows = w ∷ windows
window_of _ windows = windows

abbrev pub activations : List Command → List Window
activations [] = []
activations (command ∷ commands) = window_of command (activations commands)

abbrev pub launch_of : Command → List PendingLaunch → List PendingLaunch
launch_of (launch_app command tags launch_args) launches =
    record { command = command; tags = tags; launch_args = launch_args } ∷ launches
launch_of _ launches = launches

abbrev pub launches : List Command → List PendingLaunch
launches [] = []
launches (command ∷ commands) = launch_of command (launches commands)

abbrev to_list {ℓ} : {A : Type ℓ} → Option A → List A
to_list none = []
to_list (some a) = a ∷ []

-- The window under the selection, if no launch is staged before it.
abbrev unstaged : Option PendingLaunch → Option Window → List Window
unstaged none w = to_list w
unstaged (some _) w = []

-- The windows that an event activates: the one under the selection, on release if no launch is
-- staged, and on Enter.
abbrev committed_windows : Event → Phase → List Window
committed_windows modifier_released (armed a) =
    unstaged a.pending_launch (get_elem? a.snap.windows a.selection)
committed_windows modifier_released (picking p) =
    unstaged p.pending_launch (get_elem? p.snap.windows p.selection)
committed_windows confirm (armed a) = to_list (get_elem? a.snap.windows a.selection)
committed_windows confirm (picking p) = to_list (get_elem? p.snap.windows p.selection)
committed_windows _ _ = []

-- The launch that waits for the last vault.
abbrev pub retried : Bool → Unlocking → List PendingLaunch
retried false k = []
retried true k = elim (get_elem? k.profiles_to_unlock (suc k.current_index)) [
  | some _ ↦ []
  | none ↦
      record { command = k.retry_command; tags = k.retry_tags; launch_args = k.retry_launch_args }
      ∷ []
]

-- The launches that an event starts: the staged one on release, and the one that waited for the
-- vaults when the last of them is unlocked.
abbrev committed_launches : Event → Phase → List PendingLaunch
committed_launches modifier_released (armed a) = to_list a.pending_launch
committed_launches modifier_released (picking p) = to_list p.pending_launch
committed_launches (auto_unlock_result success _ _) (unlocking k) = retried success k
committed_launches (touch_result success _) (unlocking k) = retried success k
committed_launches (unlock_result success _) (unlocking k) = retried success k
committed_launches _ _ = []

pub record Commits (e : Event) (p : Phase) (s : Step) : Type 0 where
  pub windows : activations s.1 ≡ committed_windows e p
  pub applications : launches s.1 ≡ committed_launches e p

-- A step that commits to nothing.
pub record IsQuiet (s : Step) : Type 0 where
  no_window : activations s.1 ≡ []
  no_launch : launches s.1 ≡ []
