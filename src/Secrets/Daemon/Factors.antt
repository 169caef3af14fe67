-- ===== src/Secrets/Daemon/Factors.antt =====
-- The unlocking with several factors, over any history of messages.
use open_sesame.Prelude.{
  ℕ, ◌≡◌, ◌≢◌, refl, sym, ap, ◌∙◌, inl, inr, true, false, Bool-cases, some, ◌==◌, ==_iff,
}
use open_sesame.Prelude.Maps.{list_eq, get, insert, get-insert, get-insert_ne}
use open_sesame.Secrets.Unlock.Factor.{
  AuthFactorId, factor_eq, factor_index, factor_index-injective,
}
use open_sesame.Secrets.Unlock.Required.{needs_all, record_factor-contains}
use open_sesame.Secrets.Unlock.{
  Key, VaultMetadata, AuthCombineMode, any_mode, all_mode, policy, satisfied_by_one, PartialUnlock,
  contains, requirement, fresh_partial, record_factor,
}

abbrev Received : PartialUnlock → AuthFactorId → Type 0
Received p g = (key : Key) × (get p.received_factors g ≡ some key)

-- A required factor that is not missing was received.
abbrev pub IsTracked : VaultMetadata → PartialUnlock → Type 0
IsTracked meta p =
    (g : AuthFactorId)
    → contains (requirement meta).0 g ≡ true
    → contains p.remaining_required g ≡ false
    → Received p g

pub fresh_partial-IsTracked :
    (meta : VaultMetadata) (now : ℕ) → IsTracked meta (fresh_partial meta now)
unfolding fresh_partial
fresh_partial-IsTracked meta now g required found = absurd (differ required found)
  where
    differ : contains (requirement meta).0 g ≡ true → contains (requirement meta).0 g ≡ false → ⊥
    differ a b = cc

pub record_factor-received :
    (meta : VaultMetadata) (f : AuthFactorId) (key : Key) (p : PartialUnlock)
    → (record_factor meta f key p).received_factors ≡ insert f key p.received_factors
unfolding record_factor
record_factor-received meta f key p = by_mode meta.auth_policy _
  where
    by_mode :
        (m : AuthCombineMode) (q : PartialUnlock)
        → (satisfied_by_one m q).received_factors ≡ q.received_factors
    by_mode any_mode q = refl
    by_mode all_mode q = refl
    by_mode (policy _) q = refl

pub record_factor-IsTracked :
    (meta : VaultMetadata) (f : AuthFactorId) (key : Key) (p : PartialUnlock)
    → needs_all meta.auth_policy ≡ true
    → IsTracked meta p
    → IsTracked meta (record_factor meta f key p)
record_factor-IsTracked meta f key p needs t g required found =
    elim (Bool-cases (factor_index f == factor_index g)) [
      | inl same ↦
          let e : f ≡ g =
            factor_index-injective f g ((==_iff (factor_index f) (factor_index g)).0 same) in
          (
            key,
            ap (λ m. get m g) (record_factor-received meta f key p)
                ∙ (sym (ap (get (insert f key p.received_factors)) e)
                    ∙ get-insert f key p.received_factors),
          )
      | inr other ↦
          let (k, present) = t g required (before other) in
          (
            k,
            ap (λ m. get m g) (record_factor-received meta f key p)
                ∙ (get-insert_ne f g key p.received_factors (apart other) ∙ present),
          )
    ]
  where
    apart : (factor_index f == factor_index g) ≡ false → f ≢ g
    apart other e = differ other ((==_iff (factor_index f) (factor_index g)).1 (ap factor_index e))
      where
        differ :
            (factor_index f == factor_index g) ≡ false
            → (factor_index f == factor_index g) ≡ true
            → ⊥
        differ a b = cc

    before : (factor_index f == factor_index g) ≡ false → contains p.remaining_required g ≡ false
    before other = elim (Bool-cases (contains p.remaining_required g)) [
      | inl missing ↦
          absurd (clash (record_factor-contains meta f g key p needs other missing) found)
      | inr gone ↦ gone
    ]
      where
        clash :
            contains (record_factor meta f key p).remaining_required g ≡ true
            → contains (record_factor meta f key p).remaining_required g ≡ false
            → ⊥
        clash a b = cc
