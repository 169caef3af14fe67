-- ===== src/Prelude/Split.antt =====
-- `str::split_once`, `rsplit_once` and `splitn` at a character, and what they give back.
use mathlib.Core.Option.{some-injective}
use open_sesame.Prelude.{
  ℕ, zero, suc, ◌≡◌, refl, sym, ap, ◌∙◌, subst, Bool, true, false, ◌||◌, ◌&&◌, Option, none, some,
  List, [], ◌∷◌, ◌++◌, ◌==◌, ==_iff, if◌then◌else◌, any, arith,
}
use open_sesame.Prelude.Text.{Text}

-- `str::contains`.
abbrev pub has_char : ℕ → Text → Bool
has_char c = any (λ d. d == c)

-- `str::contains` of two dots in a row.
abbrev pub has_dots : Text → Bool
has_dots [] = false
has_dots (c ∷ []) = false
has_dots (c ∷ d ∷ s) = (c == b'.' && d == b'.') || has_dots (d ∷ s)

abbrev pub in_front : ℕ → Option (Text × Text) → Option (Text × Text)
in_front c none = none
in_front c (some (before, after)) = some (c ∷ before, after)

unfoldable pub split_once : ℕ → Text → Option (Text × Text)
split_once c [] = none
split_once c (d ∷ s) = let rest = split_once c s in if d == c then some ([], s) else in_front d rest

abbrev last_split : ℕ → ℕ → Text → Option (Text × Text) → Option (Text × Text)
last_split c d s none = if d == c then some ([], s) else none
last_split c d s (some (before, after)) = some (d ∷ before, after)

unfoldable pub rsplit_once : ℕ → Text → Option (Text × Text)
rsplit_once c [] = none
rsplit_once c (d ∷ s) = last_split c d s (rsplit_once c s)

abbrev pub split_rest : (Text → List Text) → Text → Option (Text × Text) → List Text
split_rest more s none = s ∷ []
split_rest more s (some (before, after)) = before ∷ more after

-- At most `n` pieces.
unfoldable pub splitn : ℕ → ℕ → Text → List Text
unfolding split_once
splitn zero c s = []
splitn (suc zero) c s = s ∷ []
splitn (suc (suc n)) c s = split_rest (splitn (suc n) c) s (split_once c s)

pub split_once-append :
    (c : ℕ) (a b : Text) → has_char c a ≡ false → split_once c (a ++ c ∷ b) ≡ some (a, b)
unfolding split_once
split_once-append c [] b h = ground arith
split_once-append c (d ∷ a) b h = ground (arith, split_once-append c a b)

pub split_once_sound :
    (c : ℕ) (s a b : Text)
    → split_once c s ≡ some (a, b)
    → (s ≡ a ++ c ∷ b) × (has_char c a ≡ false)
unfolding split_once
split_once_sound c [] a b h = cc
split_once_sound c (d ∷ s) a b h =
    found (split_once_sound c s) (d == c) (split_once c s) refl refl h
  where
    Splits : Text × Text → Type 0
    Splits (a, b) = (◌≡◌ {A = Text} (d ∷ s) (a ++ c ∷ b)) × (has_char c a ≡ false)

    found :
        ((a b : Text) → split_once c s ≡ some (a, b) → (s ≡ a ++ c ∷ b) × (has_char c a ≡ false))
        → (here : Bool) (o : Option (Text × Text)) → (d == c) ≡ here
        → split_once c s ≡ o
        → (if here then some ([], s) else in_front d o) ≡ some (a, b)
        → Splits (a, b)
    found more true o same e h =
        subst Splits (some-injective _ _ h) (ap (λ x. x ∷ s) ((==_iff d c).0 same), refl)
    found more false none other e h = cc
    found more false (some (before, after)) other e h =
        let (split, none_before) = more before after e in
        subst Splits (some-injective _ _ h) (ap (λ t. d ∷ t) split, ground arith)

pub rsplit_once-has_char : (c : ℕ) (s : Text) → has_char c s ≡ false → rsplit_once c s ≡ none
unfolding rsplit_once
rsplit_once-has_char c [] h = refl
rsplit_once-has_char c (d ∷ s) h = ground (arith, rsplit_once-has_char c s)

pub rsplit_once-append :
    (c : ℕ) (a b : Text) → has_char c b ≡ false → rsplit_once c (a ++ c ∷ b) ≡ some (a, b)
unfolding rsplit_once
rsplit_once-append c [] b h = ground (arith, rsplit_once-has_char c b h)
rsplit_once-append c (d ∷ a) b h = ground (arith, rsplit_once-append c a b h)

pub rsplit_once-none : (c : ℕ) (s : Text) → rsplit_once c s ≡ none → has_char c s ≡ false
unfolding rsplit_once
rsplit_once-none c [] h = refl
rsplit_once-none c (d ∷ s) h = ground (arith, rsplit_once-none c s)

pub rsplit_once_sound :
    (c : ℕ) (s a b : Text)
    → rsplit_once c s ≡ some (a, b)
    → (s ≡ a ++ c ∷ b) × (has_char c b ≡ false)
unfolding rsplit_once
rsplit_once_sound c [] a b h = cc
rsplit_once_sound c (d ∷ s) a b h =
    found (rsplit_once_sound c s) (d == c) (rsplit_once c s) refl refl h
  where
    Splits : Text × Text → Type 0
    Splits (a, b) = (◌≡◌ {A = Text} (d ∷ s) (a ++ c ∷ b)) × (has_char c b ≡ false)

    found :
        ((a b : Text) → rsplit_once c s ≡ some (a, b) → (s ≡ a ++ c ∷ b) × (has_char c b ≡ false))
        → (here : Bool) (o : Option (Text × Text)) → (d == c) ≡ here
        → rsplit_once c s ≡ o
        → last_split c d s o ≡ some (a, b)
        → Splits (a, b)
    found more here (some (before, after)) same e h =
        let (split, none_after) = more before after e in
        subst Splits (some-injective _ _ h) (ap (λ t. d ∷ t) split, none_after)
    found more true none same e h =
        let first : (if d == c then some ([], s) else none) ≡ some ([], s) = rw same refl in
        subst Splits (some-injective _ _ (sym first ∙ h))
          (ap (λ x. x ∷ s) ((==_iff d c).0 same), rsplit_once-none c s e)
    found more false none other e h = ground arith
