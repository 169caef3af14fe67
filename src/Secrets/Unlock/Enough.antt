-- ===== src/Secrets/Unlock/Enough.antt =====
-- Where all factors are required, all of them are enough.
use open_sesame.Prelude.{
  ℕ, ◌≡◌, refl, ◌==◌, arith, Bool, true, false, not, ◌⊎◌, Bool-cases, inl, inr, List, [], ◌∷◌,
  is_empty, any, retain, if◌then◌else◌, ◌&&◌, ltb, ◌-◌,
}
use open_sesame.Secrets.Unlock.Factor.{AuthFactorId, factor_index}
use open_sesame.Secrets.Unlock.Required.{submitted, or_left, or_right, or_of}
use open_sesame.Secrets.Unlock.{
  all_mode, VaultMetadata, PartialUnlock, Key, contains, to_set, requirement, fresh_partial,
  record_factor, record_all, is_complete,
}

any-retain-false :
    {A : Type 0} (p q : A → Bool) (xs : List A) → any p xs ≡ false → any p (retain q xs) ≡ false
any-retain-false p q [] h = h
any-retain-false p q (x ∷ xs) h = elim (Bool-cases (q x)) [
  | inl kept ↦ rw kept (rw (or_left (p x) (any p xs) h) (any-retain-false p q xs (or_right _ _ h)))
  | inr dropped ↦ rw dropped (any-retain-false p q xs (or_right _ _ h))
]

retain-none :
    {A : Type 0} (p q : A → Bool) (xs : List A)
    → ((x : A) → q x ≡ true → p x ≡ false)
    → any p (retain q xs) ≡ false
retain-none p q [] off = refl
retain-none p q (x ∷ xs) off = elim (Bool-cases (q x)) [
  | inl kept ↦ rw kept (rw (off x kept) (retain-none p q xs off))
  | inr dropped ↦ rw dropped (retain-none p q xs off)
]

to_set-contains :
    (fs : List AuthFactorId) (g : AuthFactorId)
    → contains fs g ≡ false
    → contains (to_set fs) g ≡ false
unfolding to_set
to_set-contains [] g h = h
to_set-contains (f ∷ fs) g h = elim (Bool-cases (contains (to_set fs) f)) [
  | inl there ↦ rw there (to_set-contains fs g (or_right _ _ h))
  | inr new ↦ rw new (
      rw (or_left (factor_index f == factor_index g) (contains fs g) h)
        (to_set-contains fs g (or_right _ _ h)))
]

same_factor :
    (f g x : AuthFactorId)
    → (factor_index f == factor_index g) ≡ true
    → not (factor_index x == factor_index f) ≡ true
    → (factor_index x == factor_index g) ≡ false
same_factor f g x same other = ground arith

-- What is not missing.
record_factor-missing :
    (meta : VaultMetadata) (f g : AuthFactorId) (key : Key) (p : PartialUnlock)
    → meta.auth_policy ≡ all_mode
    → ((factor_index f == factor_index g) ≡ true) ⊎ (contains p.remaining_required g ≡ false)
    → contains (record_factor meta f key p).remaining_required g ≡ false
unfolding record_factor
record_factor-missing meta f g key p mode (inl same) = rw mode (
    retain-none (λ x. factor_index x == factor_index g)
      (λ x. not (factor_index x == factor_index f)) p.remaining_required
      (λ x. same_factor f g x same))
record_factor-missing meta f g key p mode (inr done) =
    rw mode (any-retain-false (λ x. factor_index x == factor_index g) _ p.remaining_required done)

record_factor-additional :
    (meta : VaultMetadata) (f : AuthFactorId) (key : Key) (p : PartialUnlock)
    → meta.auth_policy ≡ all_mode
    → p.remaining_additional ≡ 0
    → (record_factor meta f key p).remaining_additional ≡ 0
unfolding record_factor
record_factor-additional meta f key p mode h = rw mode (none_left _ p.remaining_additional h)
  where
    none_left : (b : Bool) (n : ℕ) → n ≡ 0 → (if b && ltb 0 n then n - 1 else n) ≡ 0
    none_left b n h = ground arith

record_all-additional :
    (meta : VaultMetadata) (subs : List (AuthFactorId × Key)) (p : PartialUnlock)
    → meta.auth_policy ≡ all_mode
    → p.remaining_additional ≡ 0
    → (record_all meta subs p).remaining_additional ≡ 0
unfolding record_all
record_all-additional meta [] p mode h = h
record_all-additional meta ((f, key) ∷ subs) p mode h =
    record_all-additional meta subs (record_factor meta f key p) mode
      (record_factor-additional meta f key p mode h)

record_all-missing :
    (meta : VaultMetadata) (subs : List (AuthFactorId × Key)) (g : AuthFactorId) (p : PartialUnlock)
    → meta.auth_policy ≡ all_mode
    → (submitted subs g ≡ true) ⊎ (contains p.remaining_required g ≡ false)
    → contains (record_all meta subs p).remaining_required g ≡ false
unfolding record_all
record_all-missing meta [] g p mode (inl h) = cc
record_all-missing meta [] g p mode (inr done) = done
record_all-missing meta ((f, key) ∷ subs) g p mode h =
    record_all-missing meta subs g (record_factor meta f key p) mode (next h)
  where
    next :
        (submitted ((f, key) ∷ subs) g ≡ true) ⊎ (contains p.remaining_required g ≡ false)
        → (submitted subs g ≡ true)
          ⊎ (contains (record_factor meta f key p).remaining_required g ≡ false)
    next (inr done) = inr (record_factor-missing meta f g key p mode (inr done))
    next (inl sub) = elim (Bool-cases (factor_index f == factor_index g)) [
      | inl same ↦ inr (record_factor-missing meta f g key p mode (inl same))
      | inr other ↦ inl (or_of _ _ other sub)
    ]

is_empty-contains_none :
    (fs : List AuthFactorId) → ((g : AuthFactorId) → contains fs g ≡ false) → is_empty fs ≡ true
is_empty-contains_none [] h = refl
is_empty-contains_none (f ∷ fs) h = absurd (itself (h f))
  where
    itself : contains (f ∷ fs) f ≡ false → ⊥
    itself e = ground arith

-- Where all factors are required, the partial unlock is complete as soon as every enrolled factor
-- was submitted, in whatever order and repetition.
record_all-all_mode :
    (meta : VaultMetadata) (now : ℕ) (subs : List (AuthFactorId × Key))
    → meta.auth_policy ≡ all_mode
    → ((g : AuthFactorId) → contains meta.enrolled_factors g ≡ true → submitted subs g ≡ true)
    → is_complete (record_all meta subs (fresh_partial meta now)) ≡ true
unfolding is_complete fresh_partial requirement
record_all-all_mode meta now subs mode all =
    rw
      (is_empty-contains_none _
        (λ g. record_all-missing meta subs g (fresh_partial meta now) mode (start g)))
      (rw (record_all-additional meta subs (fresh_partial meta now) mode (rw mode refl)) refl)
  where
    start :
        (g : AuthFactorId)
        → (submitted subs g ≡ true)
          ⊎ (contains (fresh_partial meta now).remaining_required g ≡ false)
    start g = elim (Bool-cases (contains meta.enrolled_factors g)) [
      | inl enrolled ↦ inl (all g enrolled)
      | inr unknown ↦ inr (rw mode (to_set-contains meta.enrolled_factors g unknown))
    ]
