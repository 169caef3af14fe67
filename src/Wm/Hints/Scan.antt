-- ===== src/Wm/Hints/Scan.antt =====
-- daemon-wm/src/hints.rs: the loop of `match_input` over the hints.
use open_sesame.Prelude.{
  ℕ, suc, ◌+◌, ◌≡◌, refl, true, false, Option, none, some, List, [], ◌∷◌, ◌++◌, ◌⊎◌, inl, inr,
  arith, if◌then◌else◌, length, length-append, Bool-cases, ◌||◌,
}
use open_sesame.Prelude.Text.{Text, text_eq, text_eq_sound, starts_with}
use open_sesame.Wm.Hints.{exact, scan_hints, classify}

starts_with_refl : (s : Text) → starts_with s s ≡ true
unfolding starts_with
starts_with_refl [] = refl
starts_with_refl (c ∷ s) = ground (arith, starts_with_refl s)

pub starts_with-of_eq : (s t : Text) → text_eq s t ≡ true → starts_with s t ≡ true
starts_with-of_eq s t h = rw (text_eq_sound s t h) (starts_with_refl t)

-- How many hints have the input as a prefix.
unfoldable pub count_prefixed : Text → List Text → ℕ
count_prefixed normalized [] = 0
count_prefixed normalized (hint ∷ hints) =
    let rest = count_prefixed normalized hints in
    if starts_with hint normalized then suc rest else rest

-- The hint at `idx`, counted from `i`, is the input, and no other hint begins with it.
abbrev pub IsOnly : Text → ℕ → List Text → ℕ → Type 0
IsOnly normalized i [] idx = ⊥
IsOnly normalized i (hint ∷ hints) idx =
    (idx ≡ i) × (hint ≡ normalized) × (count_prefixed normalized hints ≡ 0)
    ⊎ (starts_with hint normalized ≡ false) × IsOnly normalized (suc i) hints idx

module _ (normalized : Text) where
  length-scan_hints :
      (i : ℕ) (hints : List Text) (found : Option ℕ) (indices : List ℕ)
      → length (scan_hints normalized i hints found indices).1
        ≡ length indices + count_prefixed normalized hints
  unfolding scan_hints count_prefixed
  length-scan_hints i [] found indices = omega arith
  length-scan_hints i (hint ∷ hints) found indices =
      let same = text_eq hint normalized in
      let found' = if same then some i else found in
      let indices' = if same || starts_with hint normalized then indices ++ i ∷ [] else indices in
      ground (
        arith,
        starts_with-of_eq hint normalized,
        length-append indices (i ∷ []),
        length-scan_hints (suc i) hints found' indices',
      )

  pub scan_hints-none :
      (i : ℕ) (hints : List Text) (found : Option ℕ) (indices : List ℕ)
      → count_prefixed normalized hints ≡ 0
      → scan_hints normalized i hints found indices ≡ (found, indices)
  unfolding scan_hints count_prefixed
  scan_hints-none i [] found indices h = refl
  scan_hints-none i (hint ∷ hints) found indices h =
      ground (arith, starts_with-of_eq hint normalized, scan_hints-none (suc i) hints found indices)

  classify-exact-length :
      (r : Option ℕ × List ℕ) (idx : ℕ) → classify r ≡ exact idx → length r.1 ≡ 1
  unfolding classify
  classify-exact-length (found, []) idx h = ground arith
  classify-exact-length (some a, _ ∷ []) idx h = refl
  classify-exact-length (none, _ ∷ []) idx h = ground arith
  classify-exact-length (some a, _ ∷ _ ∷ _) idx h = ground arith
  classify-exact-length (none, _ ∷ _ ∷ _) idx h = ground arith

  -- The scan from a state in which one hint has matched.
  scan_hints-one :
      (i : ℕ) (hints : List Text) (found : Option ℕ) (j idx : ℕ)
      → classify (scan_hints normalized i hints found (j ∷ [])) ≡ exact idx
      → (found ≡ some idx) × (count_prefixed normalized hints ≡ 0)
  scan_hints-one i hints found j idx h =
      let none_left : count_prefixed normalized hints ≡ 0 = omega (
        arith,
        length-scan_hints i hints found (j ∷ []),
        classify-exact-length (scan_hints normalized i hints found (j ∷ [])) idx h,
      ) in
      (found_of found (rw (scan_hints-none i hints found (j ∷ []) none_left) at h), none_left)
    where
      found_of : (f : Option ℕ) → classify (f, j ∷ []) ≡ exact idx → f ≡ some idx
      found_of none e = unfold classify in ground arith
      found_of (some a) e = unfold classify in ground arith

  pub scan_hints-IsOnly :
      (i : ℕ) (hints : List Text) (idx : ℕ)
      → classify (scan_hints normalized i hints none []) ≡ exact idx
      → IsOnly normalized i hints idx
  unfolding scan_hints classify
  scan_hints-IsOnly i [] idx h = ground arith
  scan_hints-IsOnly i (hint ∷ hints) idx h = elim (Bool-cases (text_eq hint normalized)) [
    | inl same ↦
        let one = scan_hints-one (suc i) hints (some i) i idx (rw same at h) in
        inl (cc one.0, text_eq_sound hint normalized same, one.1)
    | inr differs ↦ elim (Bool-cases (starts_with hint normalized)) [
      | inl longer ↦ cc ((scan_hints-one (suc i) hints none i idx (rw (differs, longer) at h)).0)
      | inr apart ↦ inr (apart, scan_hints-IsOnly (suc i) hints idx (rw (differs, apart) at h))
    ]
  ]
