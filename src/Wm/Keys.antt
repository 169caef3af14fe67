-- ===== src/Wm/Keys.antt =====
-- daemon-wm/src/ipc_keys.rs: keys that arrive twice, and the events that keys stand for.
pub mod Ring
use open_sesame.Prelude.{
  ℕ, zero, suc, ◌+◌, ◌-◌, ◌/◌, ◌%◌, Bool, true, false, not, ◌&&◌, ◌||◌, Option, none, some, List,
  [], ◌∷◌, ltb, ◌==◌, if◌then◌else◌, any, replicate,
}
use open_sesame.Prelude.Text.{is_ascii_graphic}
use open_sesame.Wm.Controller.State.{
  Event, escape, confirm, selection_down, selection_up, backspace, char,
}

-- `(u32, bool, Instant)`.
pub record KeyEvent : Type 0 where
  pub keyval : ℕ
  pub pressed : Bool
  pub time : ℕ

pub record KeyDeduplicator : Type 0 where
  pub recent : List KeyEvent
  pub idx : ℕ

unfoldable pub new : ℕ → KeyDeduplicator
new epoch = record {
  recent = replicate 8 (record { keyval = 0; pressed = false; time = epoch });
  idx = 0;
}

abbrev pub same_state : Bool → Bool → Bool
same_state true b = b
same_state false b = not b

abbrev pub repeats : KeyEvent → KeyEvent → Bool
repeats e old =
    old.keyval == e.keyval
    && same_state old.pressed e.pressed
    && ltb ((e.time - old.time) / 1000000) 50

-- `self.recent[self.idx] = ..`, with an index that is in range.
unfoldable pub set_elem : {A : Type 0} → ℕ → A → List A → List A
set_elem i a [] = []
set_elem zero a (x ∷ xs) = a ∷ xs
set_elem (suc i) a (x ∷ xs) = x ∷ set_elem i a xs

-- The key, its state and the time of the call come as one event.
unfoldable pub accept : KeyEvent → KeyDeduplicator → Bool × KeyDeduplicator
unfolding set_elem
accept e d =
    if any (repeats e) d.recent
    then (false, d)
    else (true, record { recent = set_elem d.idx e d.recent; idx = (d.idx + 1) % 8 })

-- The keys of the X11 key symbols; a tab is left to the re-activation over the bus.
unfoldable pub map_ipc_key_to_event : ℕ → Option ℕ → Option Event
map_ipc_key_to_event keyval unicode =
    if keyval == 0xFF1B
    then some escape
    else if keyval == 0xFF0D || keyval == 0xFF8D
    then some confirm
    else if keyval == 0xFF09
    then none
    else if keyval == 0xFF54
    then some selection_down
    else if keyval == 0xFF52
    then some selection_up
    else if keyval == 0xFF08
    then some backspace
    else if keyval == 0x20
    then some (char 0x20)
    else elim unicode [
      | none ↦ none
      | some ch ↦ if is_ascii_graphic ch || ch == 0x20 then some (char ch) else none
    ]
