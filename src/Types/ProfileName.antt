-- ===== src/Types/ProfileName.antt =====
-- core-types/src/profile.rs: the names of trust profiles.
pub mod Valid
use open_sesame.Prelude.{
  ℕ, zero, suc, ◌+◌, Bool, true, false, not, ◌||◌, ◌&&◌, Option, none, some, List, [], ◌∷◌, ltb,
  ◌==◌, if◌then◌else◌, is_empty,
}
use open_sesame.Prelude.Text.{
  Text, codes, text_eq, str_len, utf8_len, is_ascii_alphabetic, is_ascii_digit,
}

-- The errors of `validate`, with the length or the position that their text shows.
pub data NameError : Type 0 where
  empty_name path_component bad_start : NameError
  too_long invalid_byte : ℕ → NameError

abbrev pub is_alphanumeric : ℕ → Bool
is_alphanumeric c = is_ascii_alphabetic c || is_ascii_digit c

abbrev pub is_name_char : ℕ → Bool
is_name_char c = is_alphanumeric c || c == b'_' || c == b'-'

abbrev starts_well : Text → Bool
starts_well [] = false
starts_well (c ∷ s) = is_alphanumeric c

-- The first byte that no name may hold; a character beyond ASCII begins with such a byte.
abbrev pub check_bytes : ℕ → Text → Option NameError
check_bytes i [] = none
check_bytes i (c ∷ s) =
    let rest = check_bytes (i + utf8_len c) s in
    if is_name_char c then rest else some (invalid_byte i)

unfoldable pub validate : Text → Option NameError
unfolding text_eq
validate name =
    if is_empty name
    then some empty_name
    else if ltb 64 (str_len name)
    then some (too_long (str_len name))
    else if text_eq name (codes ".") || text_eq name (codes "..")
    then some path_component
    else if not (starts_well name)
    then some bad_start
    else check_bytes 0 name
