-- ===== src/Wm/Mru.antt =====
-- daemon-wm/src/mru.rs: the stack of recently used windows, kept in a file.
pub mod Lines
pub mod File
pub mod Stack
pub mod Order
use open_sesame.Prelude.{
  ℕ, ◌^◌, ◌-◌, Bool, true, false, not, Option, none, some, List, [], ◌∷◌, map, leb, ◌&&◌,
  if◌then◌else◌, is_empty, first, get_elem?, take, retain, any, position_from,
}
use mathlib.Core.Option
use open_sesame.Prelude.Text.{Text, text_eq, lines, trim, join_lines}
use open_sesame.Types.{Window}

abbrev pub max_entries : ℕ
max_entries = 64

pub record MruState : Type 0 where
  pub stack : List Text

unfoldable pub current : MruState → Option Text
current s = first s.stack

unfoldable pub previous : MruState → Option Text
previous s = get_elem? s.stack 1

unfoldable pub position : MruState → Text → Option ℕ
position s id = position_from 0 (λ t. text_eq t id) s.stack

unfoldable pub parse : Text → MruState
unfolding lines trim
parse contents = record { stack = retain (λ s. not (is_empty s)) (map trim (lines contents)) }

-- What the functions meet on the disk: whether the cache folder can be had, whether the two locks
-- are granted at once, whether the file reads as UTF-8, and the file, if it exists. A write that
-- was begun succeeds.
pub record Disk : Type 0 where
  pub has_path : Bool
  pub grants_shared : Bool
  pub grants_exclusive : Bool
  pub is_utf8 : Bool
  pub file : Option Text

unfoldable pub load : Disk → MruState
unfolding parse
load d = elim d.file [
  | none ↦ record { stack = [] }
  | some contents ↦
      if d.has_path && d.grants_shared && d.is_utf8 then parse contents else record { stack = [] }
]

-- The part of `save` that changes the stack.
unfoldable pub promote : Text → MruState → MruState
promote target s = record {
  stack = take max_entries (target ∷ retain (λ t. not (text_eq t target)) s.stack);
}

-- The text that a locked read-modify-write starts from: a failed read leaves it empty.
unfoldable pub read_locked : Disk → Text → Text
read_locked d contents = if d.is_utf8 then contents else []

abbrev pub written : Disk → MruState → Disk
written d s = record d { file = some (join_lines s.stack); is_utf8 = true }

abbrev pub is_current : MruState → Text → Bool
is_current s target = elim (first s.stack) [ none ↦ false | some t ↦ text_eq t target ]

abbrev pub save_locked : Text → Disk → MruState → Disk
save_locked target d s = if is_current s target then d else written d (promote target s)

-- Opening creates a missing file, whether or not the lock is then granted.
unfoldable pub save : Text → Disk → Disk
unfolding promote read_locked
save target d =
    let contents = Option.get_or d.file [] in
    let opened = record d { file = some contents } in
    if not d.has_path
    then d
    else if not d.grants_exclusive
    then opened
    else save_locked target opened (parse (read_locked d contents))

-- Dead entries are dropped; the file is written only if one was.
unfoldable pub keep_live : (Text → Bool) → MruState → MruState
keep_live live s = record { stack = retain live s.stack }

abbrev pub prune_locked : (Text → Bool) → Disk → MruState → Disk
prune_locked live d s =
    if any (λ id. not (live id)) s.stack then written d (keep_live live s) else d

unfoldable pub prune : (Text → Bool) → Disk → Disk
unfolding keep_live read_locked
prune live d = elim d.file [
  | none ↦ d
  | some contents ↦
      if d.has_path && d.grants_exclusive
      then prune_locked live d (parse (read_locked d contents))
      else d
]

abbrev find_focused : List Window → Option Window
find_focused [] = none
find_focused (w ∷ ws) = if w.is_focused then some w else find_focused ws

abbrev seed_target : List Window → Option Text
seed_target [] = none
seed_target (w ∷ ws) = some (Option.get_or (find_focused (w ∷ ws)) w).id

unfoldable pub seed_if_empty : List Window → Disk → Disk
unfolding load save
seed_if_empty windows d =
    if not (is_empty (load d).stack)
    then d
    else elim (seed_target windows) [ none ↦ d | some id ↦ save id d ]

-- `state.position(..).unwrap_or(usize::MAX)`.
unfoldable pub rank : MruState → Text → ℕ
unfolding position
rank s id = Option.get_or (position s id) (2 ^ 64 - 1)

-- `sort_by` on the ranks, which is stable.
module _ {ℓ} {T : Type ℓ} (key : T → ℕ) where
  unfoldable pub insert_by : T → List T → List T
  insert_by w [] = w ∷ []
  insert_by w (v ∷ ws) = if leb (key w) (key v) then w ∷ v ∷ ws else v ∷ insert_by w ws

  unfoldable pub sort_by : List T → List T
  sort_by [] = []
  sort_by (w ∷ ws) = insert_by w (sort_by ws)

unfoldable pub reorder {ℓ} : {T : Type ℓ} → List T → (T → Text) → MruState → List T
unfolding sort_by rank
reorder windows get_id s =
    if is_empty s.stack then windows else sort_by (λ w. rank s (get_id w)) windows
