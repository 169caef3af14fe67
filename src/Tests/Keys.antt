-- ===== src/Tests/Keys.antt =====
-- Tests of the key deduplicator and instances of its theorem.
use open_sesame.Prelude.{ℕ, ◌≡◌, refl, true, some, none, List, [], ◌∷◌, arith}
use open_sesame.Wm.Controller.State.{escape, char}
use open_sesame.Wm.Keys.{KeyEvent, KeyDeduplicator, new, accept, map_ipc_key_to_event}
use open_sesame.Wm.Keys.Ring.{IsRing, accept_all}

abbrev press : ℕ → ℕ → KeyEvent
press k t = record { keyval = k; pressed = true; time = t }

abbrev at_first : KeyDeduplicator
at_first = new 0

abbrev others : List KeyEvent
others = press 0x68 60000000 ∷ press 0x69 61000000 ∷ press 0x68 62000000 ∷ []

at_first-IsRing : IsRing at_first
unfolding new
at_first-IsRing = record { places = refl; in_range = omega arith }

taken : (accept (press 0x67 55000000) at_first).0 ≡ true
unfolding accept new
taken = refl

two_taken : (accept_all others (accept (press 0x67 55000000) at_first).1).0 ≡ 2
unfolding accept_all accept new
two_taken = refl

after_a_while : (accept (press 0x67 105000000) (accept (press 0x67 55000000) at_first).1).0 ≡ true
unfolding accept new
after_a_while = refl

escape_key : map_ipc_key_to_event 0xFF1B none ≡ some escape
unfolding map_ipc_key_to_event
escape_key = refl

tab_key : map_ipc_key_to_event 0xFF09 (some 9) ≡ none
unfolding map_ipc_key_to_event
tab_key = refl

letter_key : map_ipc_key_to_event 0x67 (some b'g') ≡ some (char b'g')
unfolding map_ipc_key_to_event
letter_key = refl
