-- ===== src/Types/ProfileName/Valid.antt =====
-- Which names are valid.
use open_sesame.Prelude.{
  ℕ, ◌+◌, ◌≡◌, ◌≢◌, ◌↔◌, ◌≤◌, ◌⊎◌, refl, inl, inr, true, Bool-cases, none, some, [], ◌∷◌, arith,
  All, All-map, length,
}
use open_sesame.Prelude.Text.{Text, text_eq, str_len, utf8_len}
use open_sesame.Types.ProfileName.{
  validate, check_bytes, is_name_char, is_alphanumeric, invalid_byte,
}

-- The characters of the documented form.
abbrev IsAlphanumeric : ℕ → Type 0
IsAlphanumeric c =
    ((b'a' ≤ c) × (c ≤ b'z')) ⊎ (((b'A' ≤ c) × (c ≤ b'Z')) ⊎ ((b'0' ≤ c) × (c ≤ b'9')))

abbrev IsNameChar : ℕ → Type 0
IsNameChar c = IsAlphanumeric c ⊎ ((c ≡ b'_') ⊎ (c ≡ b'-'))

-- `[a-zA-Z0-9][a-zA-Z0-9_-]*`, of at most 64 characters, which are one byte each.
abbrev pub IsProfileName : Text → Type 0
IsProfileName [] = ⊥
IsProfileName (c ∷ s) = IsAlphanumeric c × All IsNameChar s × (length (c ∷ s) ≤ 64)

is_alphanumeric_iff : (c : ℕ) → (is_alphanumeric c ≡ true) ↔ IsAlphanumeric c
is_alphanumeric_iff c = (reads, λ h. writes h)
  where
    reads : is_alphanumeric c ≡ true → IsAlphanumeric c
    reads h = ground arith

    writes : IsAlphanumeric c → is_alphanumeric c ≡ true
    writes (inl h) = ground arith
    writes (inr (inl h)) = ground arith
    writes (inr (inr h)) = ground arith

is_name_char_iff : (c : ℕ) → (is_name_char c ≡ true) ↔ IsNameChar c
is_name_char_iff c = (reads, λ h. writes h)
  where
    reads : is_name_char c ≡ true → IsNameChar c
    reads h = ground arith

    writes : IsNameChar c → is_name_char c ≡ true
    writes (inl h) = let e = (is_alphanumeric_iff c).1 h in rw e refl
    writes (inr (inl h)) = ground arith
    writes (inr (inr h)) = ground arith

-- No byte of the name ends a string, separates directories or makes a dot.
abbrev pub IsPathSafe : Text → Type 0
IsPathSafe = All (λ c. (c ≢ 0) × (c ≢ b'/') × (c ≢ b'.') × (c ≢ 92))

IsNameChar-safe : (c : ℕ) → IsNameChar c → (c ≢ 0) × (c ≢ b'/') × (c ≢ b'.') × (c ≢ 92)
IsNameChar-safe c h = let e = (is_name_char_iff c).1 h in ground arith

IsProfileName-chars : (name : Text) → IsProfileName name → All IsNameChar name
IsProfileName-chars [] h = absurd h
IsProfileName-chars (c ∷ s) h = (inl h.0, h.1)

IsNameChar-utf8_len : (c : ℕ) → IsNameChar c → utf8_len c ≡ 1
IsNameChar-utf8_len c h = let e = (is_name_char_iff c).1 h in ground arith

str_len-ascii : (s : Text) → All IsNameChar s → str_len s ≡ length s
str_len-ascii [] h = refl
str_len-ascii (c ∷ s) h = omega (arith, IsNameChar-utf8_len c h.0, str_len-ascii s h.1)

check_bytes_iff : (i : ℕ) (s : Text) → (check_bytes i s ≡ none) ↔ All IsNameChar s
check_bytes_iff i [] = (λ h. tt, λ h. refl)
check_bytes_iff i (c ∷ s) = elim (Bool-cases (is_name_char c)) [
  | inl good ↦
      let next = check_bytes_iff (i + utf8_len c) s in
      (λ h. ((is_name_char_iff c).0 good, next.0 (rw good at h)), λ h. rw good (next.1 h.1))
  | inr bad ↦ (
    λ h. let e : some (invalid_byte i) ≡ none = (rw bad at h) in cc,
    λ h. let e = (is_name_char_iff c).1 h.0 in cc,
  )
]

validate-IsProfileName : (name : Text) → validate name ≡ none → IsProfileName name
unfolding validate
validate-IsProfileName [] h = cc
validate-IsProfileName (c ∷ s) h =
    let chars = (check_bytes_iff 0 (c ∷ s)).0 (ground arith) in
    let first : is_alphanumeric c ≡ true = ground arith in
    let short : str_len (c ∷ s) ≤ 64 = ground arith in
    let bytes = str_len-ascii (c ∷ s) chars in
    ((is_alphanumeric_iff c).0 first, chars.1, omega arith)

IsProfileName-validate : (name : Text) → IsProfileName name → validate name ≡ none
unfolding validate text_eq
IsProfileName-validate [] v = absurd v
IsProfileName-validate (c ∷ s) v =
    let chars = IsProfileName-chars (c ∷ s) v in
    let first = (is_alphanumeric_iff c).1 v.0 in
    let bytes = str_len-ascii (c ∷ s) chars in
    let short : str_len (c ∷ s) ≤ 64 = omega (arith, v.2) in
    ground (arith, (check_bytes_iff 0 (c ∷ s)).1 chars)

-- The names that are accepted are those of the documented form, `[a-zA-Z0-9][a-zA-Z0-9_-]*` of at most
-- 64 bytes; no byte of them is a dot, a separator of directories or null.
pub validate_iff :
    (name : Text)
    → ((validate name ≡ none) ↔ IsProfileName name) × (validate name ≡ none → IsPathSafe name)
validate_iff name = (
  (validate-IsProfileName name, IsProfileName-validate name),
  λ h. All-map _ _ name IsNameChar-safe (IsProfileName-chars name (validate-IsProfileName name h)),
)
