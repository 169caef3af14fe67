-- ===== src/Tests/Mru.antt =====
-- Tests and instances of the theorems on the stack of recently used windows.
use open_sesame.Prelude.{◌≡◌, refl, some, [], ◌∷◌, arith}
use open_sesame.Prelude.Text.{ne-of-text_eq, text_eq, is_whitespace, codes, trim, join_lines}
use open_sesame.Wm.Mru.{MruState, parse, load, save}
use open_sesame.Wm.Mru.Lines.{IsClean}
use open_sesame.Wm.Mru.File.{IsFree, load-save}
use open_sesame.Wm.Mru.Stack.{IsStack, saved}
use open_sesame.Tests.Window.{disk}

abbrev stack : MruState
stack = record { stack = codes "win-a" ∷ codes "win-b" ∷ [] }

read_back : load disk ≡ stack
unfolding load parse is_whitespace
read_back = refl

after_save : (save (codes "win-b") disk).file ≡ some (codes "win-b\nwin-a")
unfolding save parse join_lines is_whitespace text_eq
after_save = refl

terminal-IsClean : IsClean (codes "win-b")
unfolding trim is_whitespace
terminal-IsClean = record { one_line = omega arith; trimmed = refl; some_text = refl }

free : IsFree disk
free = record { path = refl; shared = refl; exclusive = refl }

load-save_example : load (save (codes "win-b") disk) ≡ saved (codes "win-b") (load disk)
load-save_example = load-save (codes "win-b") disk free terminal-IsClean

browser-IsClean : IsClean (codes "win-a")
unfolding trim is_whitespace
browser-IsClean = record { one_line = omega arith; trimmed = refl; some_text = refl }

kept : IsStack stack
unfolding text_eq
kept = record {
  capped = omega arith;
  distinct = ((ne-of-text_eq (codes "win-b") (codes "win-a") refl, tt), (tt, tt));
}
