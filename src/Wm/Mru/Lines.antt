-- ===== src/Wm/Mru/Lines.antt =====
-- The text of the MRU file: its lines are read back as they were written.
use open_sesame.Prelude.{
  ℕ, ◌≡◌, ◌≢◌, refl, false, not, Bool-cases, inl, inr, List, [], ◌∷◌, ◌++◌, map, ◌&&◌, arith, ◌==◌,
  is_empty, retain, All,
}
use open_sesame.Prelude.Text.{
  Text, is_whitespace, trim_start, trim_end, trim, push_head, lines, join_lines,
}
use open_sesame.Wm.Mru.{MruState, parse}

-- No line feed in a text.
abbrev HasNoFeed : Text → Type 0
HasNoFeed = All (λ c. c ≢ 10)

-- An entry that the file can hold: one line, not empty, with no blanks round it.
pub record IsClean (t : Text) : Type 0 where
  pub one_line : HasNoFeed t
  pub trimmed : trim t ≡ t
  pub some_text : is_empty t ≡ false

lines-feed : (l s : Text) → HasNoFeed l → lines (l ++ 10 ∷ s) ≡ l ∷ lines s
unfolding lines
lines-feed [] s h = refl
lines-feed (c ∷ l) s h = ground (arith, lines-feed l s h.1)

lines-last : (c : ℕ) (l : Text) → HasNoFeed (c ∷ l) → lines (c ∷ l) ≡ (c ∷ l) ∷ []
unfolding lines
lines-last c [] h = ground arith
lines-last c (d ∷ l) h = ground (arith, lines-last d l h.1)

lines-join_lines : (ls : List Text) → All IsClean ls → lines (join_lines ls) ≡ ls
unfolding join_lines
lines-join_lines [] h = unfold lines in refl
lines-join_lines ([] ∷ []) h = cc (h.0.some_text)
lines-join_lines ((c ∷ l) ∷ []) h = lines-last c l h.0.one_line
lines-join_lines (l ∷ m ∷ ls) h =
    rw (lines-feed l (join_lines (m ∷ ls)) h.0.one_line, lines-join_lines (m ∷ ls) h.1)

map-trim_clean : (ls : List Text) → All IsClean ls → map trim ls ≡ ls
map-trim_clean [] h = refl
map-trim_clean (l ∷ ls) h = rw (h.0.trimmed, map-trim_clean ls h.1)

retain-clean : (ls : List Text) → All IsClean ls → retain (λ s. not (is_empty s)) ls ≡ ls
retain-clean [] h = refl
retain-clean (l ∷ ls) h = rw (h.0.some_text, retain-clean ls h.1)

-- Clean entries, written one to a line, are parsed to the same stack.
pub parse-join_lines : (s : MruState) → All IsClean s.stack → parse (join_lines s.stack) ≡ s
unfolding parse
parse-join_lines s h =
    rw (lines-join_lines s.stack h, map-trim_clean s.stack h, retain-clean s.stack h)

HasNoFeed-push_head :
    (c : ℕ) (ls : List Text) → c ≢ 10 → All HasNoFeed ls → All HasNoFeed (push_head c ls)
HasNoFeed-push_head c [] ne h = ((ne, tt), tt)
HasNoFeed-push_head c (l ∷ ls) ne h = ((ne, h.0), h.1)

HasNoFeed-lines : (s : Text) → All HasNoFeed (lines s)
unfolding lines
HasNoFeed-lines [] = tt
HasNoFeed-lines (c ∷ s) = elim (Bool-cases (c == 10)) [
  | inl feed ↦ rw feed (tt, HasNoFeed-lines s)
  | inr other ↦ rw other (HasNoFeed-push_head c (lines s) (λ e. ground arith) (HasNoFeed-lines s))
]

HasNoFeed-trim_start : (s : Text) → HasNoFeed s → HasNoFeed (trim_start s)
unfolding trim_start
HasNoFeed-trim_start [] h = tt
HasNoFeed-trim_start (c ∷ s) h = elim (Bool-cases (is_whitespace c)) [
  | inl blank ↦ rw blank (HasNoFeed-trim_start s h.1)
  | inr other ↦ rw other h
]

HasNoFeed-trim_end : (s : Text) → HasNoFeed s → HasNoFeed (trim_end s)
unfolding trim_end
HasNoFeed-trim_end [] h = tt
HasNoFeed-trim_end (c ∷ s) h = elim (Bool-cases (is_empty (trim_end s) && is_whitespace c)) [
  | inl blank ↦ rw blank tt
  | inr other ↦ rw other (h.0, HasNoFeed-trim_end s h.1)
]

-- A text that does not begin with a blank.
abbrev BeginsDark : Text → Type 0
BeginsDark [] = Unit
BeginsDark (c ∷ s) = is_whitespace c ≡ false

trim_start-BeginsDark : (s : Text) → BeginsDark (trim_start s)
unfolding trim_start
trim_start-BeginsDark [] = tt
trim_start-BeginsDark (c ∷ s) = elim (Bool-cases (is_whitespace c)) [
  | inl blank ↦ rw blank (trim_start-BeginsDark s)
  | inr other ↦ rw other other
]

trim_end-BeginsDark : (s : Text) → BeginsDark s → BeginsDark (trim_end s)
unfolding trim_end
trim_end-BeginsDark [] h = tt
trim_end-BeginsDark (c ∷ s) h = elim (Bool-cases (is_empty (trim_end s) && is_whitespace c)) [
  | inl blank ↦ rw blank tt
  | inr other ↦ rw other h
]

trim_start-dark : (s : Text) → BeginsDark s → trim_start s ≡ s
unfolding trim_start
trim_start-dark [] h = refl
trim_start-dark (c ∷ s) h = rw h

trim_end-trim_end : (s : Text) → trim_end (trim_end s) ≡ trim_end s
unfolding trim_end
trim_end-trim_end [] = refl
trim_end-trim_end (c ∷ s) = elim (Bool-cases (is_empty (trim_end s) && is_whitespace c)) [
  | inl blank ↦ rw blank
  | inr other ↦ rw (other, trim_end-trim_end s, other)
]

trim-trim : (s : Text) → trim (trim s) ≡ trim s
unfolding trim
trim-trim s =
    let dark = trim_end-BeginsDark (trim_start s) (trim_start-BeginsDark s) in
    rw (trim_start-dark (trim_end (trim_start s)) dark, trim_end-trim_end)

parse_lines-IsClean :
    (ls : List Text) → All HasNoFeed ls → All IsClean (retain (λ s. not (is_empty s)) (map trim ls))
parse_lines-IsClean [] h = tt
parse_lines-IsClean (l ∷ ls) h = elim (Bool-cases (is_empty (trim l))) [
  | inl empty ↦ rw empty (parse_lines-IsClean ls h.1)
  | inr text ↦ rw text (
    record {
      one_line = unfold trim in HasNoFeed-trim_end (trim_start l) (HasNoFeed-trim_start l h.0);
      trimmed = trim-trim l;
      some_text = text;
    },
    parse_lines-IsClean ls h.1,
  )
]

-- Whatever the file holds, the entries that are read from it are clean.
pub parse-IsClean : (contents : Text) → All IsClean (parse contents).stack
unfolding parse
parse-IsClean contents = parse_lines-IsClean (lines contents) (HasNoFeed-lines contents)
