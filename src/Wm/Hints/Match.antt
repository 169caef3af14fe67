-- ===== src/Wm/Hints/Match.antt =====
-- What a match of typed input against the hints means.
use open_sesame.Prelude.{
  ℕ, zero, suc, ◌+◌, ◌≡◌, ◌↔◌, refl, sym, ap, subst, true, false, none, some, List, [], ◌∷◌, inl,
  inr, arith, is_empty, get_elem?, Bool-cases,
}
use open_sesame.Prelude.Text.{Text, Unicode, text_eq, text_eq_refl, starts_with}
use open_sesame.Wm.Hints.{
  exact, scan_hints, classify, normalize_input, match_normalized, match_input,
}
use open_sesame.Wm.Hints.Scan.{
  starts_with-of_eq, count_prefixed, IsOnly, scan_hints-none, scan_hints-IsOnly,
}

-- What `exact` promises: the hint at the index is the normalised input, and every hint that begins
-- with the input stands there.
pub record IsMatch (normalized : Text) (hints : List Text) (idx : ℕ) : Type 0 where
  pub typed : is_empty normalized ≡ false
  pub hit : get_elem? hints idx ≡ some normalized
  pub alone :
      (j : ℕ) (hint : Text)
      → get_elem? hints j ≡ some hint
      → starts_with hint normalized ≡ true
      → j ≡ idx

count_prefixed-none :
    (normalized : Text) (hints : List Text) (j : ℕ) (hint : Text)
    → count_prefixed normalized hints ≡ 0
    → get_elem? hints j ≡ some hint
    → starts_with hint normalized ≡ false
unfolding count_prefixed
count_prefixed-none normalized [] j hint none_left e = ground arith
count_prefixed-none normalized (h ∷ hints) zero hint none_left e = ground arith
count_prefixed-none normalized (h ∷ hints) (suc j) hint none_left e =
    count_prefixed-none normalized hints j hint (ground arith) e

IsOnly-hit :
    (normalized : Text) (i : ℕ) (hints : List Text) (idx : ℕ)
    → IsOnly normalized i hints idx
    → (k : ℕ) × (idx ≡ i + k) × (get_elem? hints k ≡ some normalized)
IsOnly-hit normalized i [] idx o = elim o [ ]
IsOnly-hit normalized i (hint ∷ hints) idx (inl h) = (0, omega arith, ap some h.1)
IsOnly-hit normalized i (hint ∷ hints) idx (inr h) =
    let (k, at, hit) = IsOnly-hit normalized (suc i) hints idx h.1 in (suc k, omega arith, hit)

IsOnly-alone :
    (normalized : Text) (i : ℕ) (hints : List Text) (idx j : ℕ) (hint : Text)
    → IsOnly normalized i hints idx
    → get_elem? hints j ≡ some hint
    → starts_with hint normalized ≡ true
    → i + j ≡ idx
IsOnly-alone normalized i [] idx j hint o e p = elim o [ ]
IsOnly-alone normalized i (h ∷ hints) idx zero hint (inl o) e p = omega arith
IsOnly-alone normalized i (h ∷ hints) idx (suc j) hint (inl o) e p =
    cc (count_prefixed-none normalized hints j hint o.2 e)
IsOnly-alone normalized i (h ∷ hints) idx zero hint (inr o) e p = ground arith
IsOnly-alone normalized i (h ∷ hints) idx (suc j) hint (inr o) e p =
    omega (arith, IsOnly-alone normalized (suc i) hints idx j hint o.1 e p)

count_prefixed-zero :
    (normalized : Text) (hints : List Text)
    → ((j : ℕ) (hint : Text)
        → get_elem? hints j ≡ some hint
        → starts_with hint normalized ≡ true
        → ⊥)
    → count_prefixed normalized hints ≡ 0
unfolding count_prefixed
count_prefixed-zero normalized [] none_of = refl
count_prefixed-zero normalized (h ∷ hints) none_of = elim (Bool-cases (starts_with h normalized)) [
  | inl longer ↦ absurd (none_of 0 h refl longer)
  | inr apart ↦ rw apart (count_prefixed-zero normalized hints (λ j hint. none_of (suc j) hint))
]

IsOnly-of :
    (normalized : Text) (i : ℕ) (hints : List Text) (k : ℕ)
    → get_elem? hints k ≡ some normalized
    → ((j : ℕ) (hint : Text)
        → get_elem? hints j ≡ some hint
        → starts_with hint normalized ≡ true
        → j ≡ k)
    → IsOnly normalized i hints (i + k)
IsOnly-of normalized i [] k hit alone = cc
IsOnly-of normalized i (h ∷ hints) zero hit alone = inl (
  omega arith,
  cc,
  count_prefixed-zero normalized hints
      (λ j hint e p. let off : suc j ≡ 0 = alone (suc j) hint e p in omega arith),
)
IsOnly-of normalized i (h ∷ hints) (suc k) hit alone =
    elim (Bool-cases (starts_with h normalized)) [
      | inl longer ↦ let off : 0 ≡ suc k = alone 0 h refl longer in absurd (omega arith)
      | inr apart ↦
          let only =
            IsOnly-of normalized (suc i) hints k hit
              (λ j hint e p. let at : suc j ≡ suc k = alone (suc j) hint e p in omega arith) in
          inr (apart, subst (λ n. IsOnly normalized (suc i) hints n) (omega arith) only)
    ]

IsOnly-exact :
    (normalized : Text) (i : ℕ) (hints : List Text) (idx : ℕ)
    → IsOnly normalized i hints idx
    → classify (scan_hints normalized i hints none []) ≡ exact idx
unfolding scan_hints
IsOnly-exact normalized i [] idx o = elim o [ ]
IsOnly-exact normalized i (h ∷ hints) idx (inl o) =
    let same : text_eq h normalized ≡ true = rw o.1 (text_eq_refl normalized) in
    rw (same, scan_hints-none normalized (suc i) hints (some i) (i ∷ []) o.2)
      (unfold classify in ap exact (sym o.0))
IsOnly-exact normalized i (h ∷ hints) idx (inr o) = elim (Bool-cases (text_eq h normalized)) [
  | inl same ↦ cc (starts_with-of_eq h normalized same)
  | inr differs ↦ rw (differs, o.0) (IsOnly-exact normalized (suc i) hints idx o.1)
]

match_normalized-IsMatch :
    (normalized : Text) (hints : List Text) (idx : ℕ)
    → match_normalized normalized hints ≡ exact idx
    → IsMatch normalized hints idx
unfolding match_normalized
match_normalized-IsMatch [] hints idx h = cc
match_normalized-IsMatch (c ∷ s) hints idx h =
    let only = scan_hints-IsOnly (c ∷ s) 0 hints idx h in
    let (k, at, hit) = IsOnly-hit (c ∷ s) 0 hints idx only in
    let same : k ≡ idx = omega arith in
    record {
      typed = refl;
      hit = rw (← same) hit;
      alone = λ j hint e p. omega (arith, IsOnly-alone (c ∷ s) 0 hints idx j hint only e p);
    }

IsMatch-match_normalized :
    (normalized : Text) (hints : List Text) (idx : ℕ)
    → IsMatch normalized hints idx
    → match_normalized normalized hints ≡ exact idx
unfolding match_normalized
IsMatch-match_normalized [] hints idx m = cc (m.typed)
IsMatch-match_normalized (c ∷ s) hints idx m =
    let only = IsOnly-of (c ∷ s) 0 hints idx m.hit m.alone in
    IsOnly-exact (c ∷ s) 0 hints idx (subst (λ n. IsOnly (c ∷ s) 0 hints n) (omega arith) only)

-- Typed input is an exact match of a hint exactly when the input is not empty, the hint is the
-- normalised input, and every hint that begins with the normalised input stands at that index.
pub match_input-exact_iff :
    (u : Unicode) (input : Text) (hints : List Text) (idx : ℕ)
    → (match_input u input hints ≡ exact idx) ↔ IsMatch (normalize_input u input) hints idx
unfolding match_input
match_input-exact_iff u input hints idx = (
  match_normalized-IsMatch (normalize_input u input) hints idx,
  IsMatch-match_normalized (normalize_input u input) hints idx,
)
