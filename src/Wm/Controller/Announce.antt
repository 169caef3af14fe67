-- ===== src/Wm/Controller/Announce.antt =====
-- What the commands do to the surface of the overlay and to the other daemons.
pub mod Steps
pub mod Every
use open_sesame.Prelude.{◌≡◌, Bool, true, false, List, [], ◌∷◌}
use open_sesame.Wm.Controller.State.{
  Command, show_border, hide_and_sync, hide, publish, EventKind, wm_overlay_shown,
  wm_overlay_dismissed, Phase, idle, Step,
}

abbrev pub is_active : Phase → Bool
is_active idle = false
is_active _ = true

-- Whether the surface is mapped after a command.
abbrev pub mapped : Command → Bool → Bool
mapped (show_border _) b = true
mapped hide_and_sync b = false
mapped hide b = false
mapped _ b = b

abbrev pub mapped_after : Bool → List Command → Bool
mapped_after b [] = b
mapped_after b (command ∷ commands) = mapped_after (mapped command b) commands

abbrev kind_of : Command → List EventKind → List EventKind
kind_of (publish kind _) kinds = kind ∷ kinds
kind_of _ kinds = kinds

abbrev published : List Command → List EventKind
published [] = []
published (command ∷ commands) = kind_of command (published commands)

-- What a change of activity is announced by.
abbrev announcement : Bool → Bool → List EventKind
announcement false true = wm_overlay_shown ∷ []
announcement true false = wm_overlay_dismissed ∷ []
announcement _ _ = []

-- A step from a phase that is active or not maps and unmaps the surface with the activity, and
-- announces each change once.
pub record Announces (before : Bool) (s : Step) : Type 0 where
  pub surface : mapped_after before s.1 ≡ is_active s.0.phase
  pub events : published s.1 ≡ announcement before (is_active s.0.phase)
