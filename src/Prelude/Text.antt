-- ===== src/Prelude/Text.antt =====
-- Text as its list of Unicode scalar values, and the parts of Rust's `str` and `char` that the
-- program uses. The tables of the Unicode standard beyond ASCII stand in the record `Unicode`.
use Prim.Native.Nat.{ℕ, ◌+◌}
use Prim.Native.Char.{code}
use Prim.Native.String.{String}
use mathlib.Core.Path.{◌≡◌, refl, sym, ◌∙◌, ap₂}
use mathlib.Core.Bool.{Bool, true, false, ◌&&◌, ◌||◌}
use mathlib.Core.Logic.{◌↔◌, ◌≢◌}
use mathlib.Core.List.{List, [], ◌∷◌, ◌++◌}
use native.Mathlib.Omega.{arith}
use open_sesame.Prelude.Lists.{is_empty}
use open_sesame.Prelude.Tests.{ltb, leb, ◌==◌, if◌then◌else◌}

abbrev pub Text : Type 0
Text = List ℕ

-- The scalar values of a literal.
abbrev pub codes : String → Text
codes String.[] = []
codes (String.◌∷◌ c s) = code c ∷ codes s

-- `str == str`.
unfoldable pub text_eq : Text → Text → Bool
text_eq [] [] = true
text_eq (a ∷ s) (b ∷ t) = a == b && text_eq s t
text_eq _ _ = false

pub text_eq_refl : (s : Text) → text_eq s s ≡ true
unfolding text_eq
text_eq_refl [] = refl
text_eq_refl (a ∷ s) = ground (arith, text_eq_refl s)

pub text_eq_sound : (s t : Text) → text_eq s t ≡ true → s ≡ t
unfolding text_eq
text_eq_sound [] [] h = refl
text_eq_sound [] (b ∷ t) h = ground arith
text_eq_sound (a ∷ s) [] h = ground arith
text_eq_sound (a ∷ s) (b ∷ t) h =
    let e : a ≡ b = ground arith in ap₂ ◌∷◌ e (text_eq_sound s t (ground arith))

pub text_eq_iff : (s t : Text) → (text_eq s t ≡ true) ↔ (s ≡ t)
text_eq_iff s t = (text_eq_sound s t, λ e. subst' e)
  where
    subst' : s ≡ t → text_eq s t ≡ true
    subst' e = rw e (text_eq_refl t)

pub ne-of-text_eq : (s t : Text) → text_eq s t ≡ false → s ≢ t
ne-of-text_eq s t h e = false_ne_true (sym h ∙ (text_eq_iff s t).1 e)
  where
    false_ne_true : false ≡ true → ⊥
    false_ne_true d = cc

-- `str::starts_with(&str)`: the text first, then the prefix.
unfoldable pub starts_with : Text → Text → Bool
starts_with s [] = true
starts_with [] (b ∷ p) = false
starts_with (a ∷ s) (b ∷ p) = a == b && starts_with s p

-- The bytes of a scalar value in UTF-8, and `str::len`.
abbrev pub utf8_len : ℕ → ℕ
utf8_len c = if ltb c 0x80 then 1 else if ltb c 0x800 then 2 else if ltb c 0x10000 then 3 else 4

abbrev pub str_len : Text → ℕ
str_len [] = 0
str_len (c ∷ s) = utf8_len c + str_len s

pub str_len-append : (s t : Text) → str_len (s ++ t) ≡ str_len s + str_len t
str_len-append [] t = omega arith
str_len-append (c ∷ s) t = omega (arith, str_len-append s t)

abbrev pub is_ascii_digit : ℕ → Bool
is_ascii_digit c = leb b'0' c && leb c b'9'

abbrev is_ascii_lower : ℕ → Bool
is_ascii_lower c = leb b'a' c && leb c b'z'

abbrev is_ascii_upper : ℕ → Bool
is_ascii_upper c = leb b'A' c && leb c b'Z'

abbrev pub is_ascii_alphabetic : ℕ → Bool
is_ascii_alphabetic c = is_ascii_lower c || is_ascii_upper c

abbrev pub is_ascii_graphic : ℕ → Bool
is_ascii_graphic c = leb b'!' c && leb c b'~'

abbrev pub to_ascii_lowercase : ℕ → ℕ
to_ascii_lowercase c = if is_ascii_upper c then c + 32 else c

-- `char::is_whitespace`: the property White_Space.
unfoldable pub is_whitespace : ℕ → Bool
is_whitespace c =
    (leb 0x9 c && leb c 0xd)
    || c == 0x20
    || c == 0x85
    || c == 0xa0
    || c == 0x1680
    || (leb 0x2000 c && leb c 0x200a)
    || c == 0x2028
    || c == 0x2029
    || c == 0x202f
    || c == 0x205f
    || c == 0x3000

unfoldable pub trim_start : Text → Text
trim_start [] = []
trim_start (c ∷ s) = let rest = trim_start s in if is_whitespace c then rest else c ∷ s

unfoldable pub trim_end : Text → Text
trim_end [] = []
trim_end (c ∷ s) =
    let rest = trim_end s in if is_empty rest && is_whitespace c then [] else c ∷ rest

-- `str::trim`.
unfoldable pub trim : Text → Text
unfolding trim_start trim_end
trim s = trim_end (trim_start s)

-- The rest of the line that is being read, and the lines behind it.
abbrev pub push_head : ℕ → List Text → List Text
push_head c [] = (c ∷ []) ∷ []
push_head c (l ∷ ls) = (c ∷ l) ∷ ls

-- `str::lines` up to a carriage return at a line's end, which every caller trims off: pieces that a
-- line feed ends, with no empty piece behind the last one.
unfoldable pub lines : Text → List Text
lines [] = []
lines (c ∷ s) = let rest = lines s in if c == 10 then [] ∷ rest else push_head c rest

-- `[String]::join("\n")`.
unfoldable pub join_lines : List Text → Text
join_lines [] = []
join_lines (l ∷ []) = l
join_lines (l ∷ m ∷ ls) = l ++ 10 ∷ join_lines (m ∷ ls)

-- The Unicode tables behind `char::is_alphanumeric`, `char::to_lowercase` and `str::to_lowercase`.
pub record Unicode : Type 0 where
  pub is_alphanumeric : ℕ → Bool
  pub char_lowercase : ℕ → Text
  pub str_lowercase : Text → Text

abbrev map_ascii : Text → Text
map_ascii [] = []
map_ascii (c ∷ s) = to_ascii_lowercase c ∷ map_ascii s

-- The tables cut down to ASCII.
abbrev pub ascii : Unicode
ascii = record {
  is_alphanumeric = λ c. is_ascii_alphabetic c || is_ascii_digit c;
  char_lowercase = λ c. to_ascii_lowercase c ∷ [];
  str_lowercase = map_ascii;
}
