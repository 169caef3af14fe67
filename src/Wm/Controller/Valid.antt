-- ===== src/Wm/Controller/Valid.antt =====
-- The invariant of the controller, which its children prove of every handler.
pub mod Select
pub mod Typing
pub mod Unlock
pub mod Handle
use open_sesame.Prelude.{ℕ, ◌-◌, ◌≤◌, ◌<◌, ◌≡◌, Option, none, ◌⊎◌, length}
use open_sesame.Prelude.Text.{Text, str_len}
use open_sesame.Wm.Snapshot.{Snapshot}
use open_sesame.Wm.Snapshot.Shape.{IsParallel}
use open_sesame.Wm.Controller.State.{Phase, armed, picking, unlocking, PendingLaunch}

-- `selection`, `input` and `pending_launch` of the two phases with a snapshot.
pub record IsBrowsing (snap : Snapshot) (selection : ℕ) (input : Text)
    (pending : Option PendingLaunch) : Type 0 where
  pub parallel : IsParallel snap
  pub selected : selection ≤ length snap.windows - 1
  pub short : str_len input ≤ 67
  pub single_key : (pending ≡ none) ⊎ (str_len input ≡ 1)

abbrev pub IsValid : Phase → Type 0
IsValid (armed a) = IsBrowsing a.snap a.selection a.input a.pending_launch
IsValid (picking p) = IsBrowsing p.snap p.selection p.input p.pending_launch
IsValid (unlocking k) = k.current_index < length k.profiles_to_unlock
IsValid _ = Unit
