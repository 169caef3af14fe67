-- ===== src/Secrets/Unlock/Required.antt =====
-- No unlock without the required factors.
use open_sesame.Prelude.{
  ℕ, ◌≡◌, refl, ◌==◌, arith, Bool, true, false, not, ◌||◌, Bool-cases, inl, inr, List, [], ◌∷◌,
  is_empty, any, retain,
}
use open_sesame.Secrets.Unlock.Factor.{AuthFactorId, factor_index}
use open_sesame.Secrets.Unlock.{
  AuthCombineMode, any_mode, all_mode, policy, VaultMetadata, PartialUnlock, Key, contains,
  requirement, fresh_partial, record_factor, record_all, is_complete, satisfied_by_one,
}

-- One of the factors was submitted.
abbrev pub submitted : List (AuthFactorId × Key) → AuthFactorId → Bool
submitted [] f = false
submitted ((g, key) ∷ subs) f = factor_index g == factor_index f || submitted subs f

abbrev pub needs_all : AuthCombineMode → Bool
needs_all any_mode = false
needs_all _ = true

pub or_left : (a b : Bool) → (a || b) ≡ false → a ≡ false
or_left a b h = ground arith

pub or_right : (a b : Bool) → (a || b) ≡ false → b ≡ false
or_right a b h = ground arith

pub or_of : (a b : Bool) → a ≡ false → (a || b) ≡ true → b ≡ true
or_of a b off h = ground arith

any-retain :
    {A : Type 0} (p q : A → Bool) (xs : List A)
    → ((x : A) → p x ≡ true → q x ≡ true)
    → any p xs ≡ true
    → any p (retain q xs) ≡ true
any-retain p q [] keep h = h
any-retain p q (x ∷ xs) keep h = elim (Bool-cases (p x)) [
  | inl on ↦ rw (keep x on) (rw on refl)
  | inr off ↦ elim (Bool-cases (q x)) [
    | inl kept ↦ rw kept (rw off (any-retain p q xs keep (or_of (p x) (any p xs) off h)))
    | inr dropped ↦ rw dropped (any-retain p q xs keep (or_of (p x) (any p xs) off h))
  ]
]

other_factor :
    (f g x : AuthFactorId)
    → (factor_index f == factor_index g) ≡ false
    → (factor_index x == factor_index g) ≡ true
    → not (factor_index x == factor_index f) ≡ true
other_factor f g x other same = ground arith

is_empty-contains :
    (fs : List AuthFactorId) (g : AuthFactorId) → contains fs g ≡ true → is_empty fs ≡ false
is_empty-contains [] g h = cc
is_empty-contains (f ∷ fs) g h = refl

satisfied_by_one-needs_all :
    (m : AuthCombineMode) (p : PartialUnlock) → needs_all m ≡ true → satisfied_by_one m p ≡ p
satisfied_by_one-needs_all any_mode p h = cc
satisfied_by_one-needs_all all_mode p h = refl
satisfied_by_one-needs_all (policy _) p h = refl

-- A factor that is still missing stays missing while others are submitted.
pub record_factor-contains :
    (meta : VaultMetadata) (f g : AuthFactorId) (key : Key) (p : PartialUnlock)
    → needs_all meta.auth_policy ≡ true
    → (factor_index f == factor_index g) ≡ false
    → contains p.remaining_required g ≡ true
    → contains (record_factor meta f key p).remaining_required g ≡ true
unfolding record_factor
record_factor-contains meta f g key p needs other missing =
    rw (satisfied_by_one-needs_all meta.auth_policy _ needs) (
      any-retain (λ x. factor_index x == factor_index g)
        (λ x. not (factor_index x == factor_index f)) p.remaining_required
        (λ x. other_factor f g x other) missing)

record_all-contains :
    (meta : VaultMetadata) (subs : List (AuthFactorId × Key)) (g : AuthFactorId) (p : PartialUnlock)
    → needs_all meta.auth_policy ≡ true
    → submitted subs g ≡ false
    → contains p.remaining_required g ≡ true
    → contains (record_all meta subs p).remaining_required g ≡ true
unfolding record_all
record_all-contains meta [] g p needs never missing = missing
record_all-contains meta ((f, key) ∷ subs) g p needs never missing =
    record_all-contains meta subs g (record_factor meta f key p) needs (or_right _ _ never)
      (record_factor-contains meta f g key p needs (or_left _ _ never) missing)

-- Unless any factor is enough, submissions without a factor that the vault requires leave the
-- partial unlock incomplete, however many they are and in whatever order and repetition.
record_all-is_complete :
    (meta : VaultMetadata) (now : ℕ) (subs : List (AuthFactorId × Key)) (g : AuthFactorId)
    → needs_all meta.auth_policy ≡ true
    → contains (requirement meta).0 g ≡ true
    → submitted subs g ≡ false
    → is_complete (record_all meta subs (fresh_partial meta now)) ≡ false
unfolding is_complete fresh_partial
record_all-is_complete meta now subs g needs required never =
    rw
      (is_empty-contains _ g
        (record_all-contains meta subs g (fresh_partial meta now) needs never required))
      refl
