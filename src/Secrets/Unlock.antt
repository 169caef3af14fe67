-- ===== src/Secrets/Unlock.antt =====
-- daemon-secrets/src/unlock.rs and vault.rs: unlocking a vault with several factors, one after the
-- other.
pub mod Factor
pub mod Required
pub mod Enough
use open_sesame.Prelude.{
  ℕ, ◌+◌, ◌-◌, ◌*◌, Bool, not, ◌&&◌, List, [], ◌∷◌, ltb, leb, ◌==◌, if◌then◌else◌, is_empty, any,
  retain,
}
use open_sesame.Prelude.Maps.{Map, list_eq, insert}
use open_sesame.Secrets.Unlock.Factor.{AuthFactorId, factor_eq, factor_index}

-- core-types/src/auth.rs
pub record AuthPolicy : Type 0 where
  pub required : List AuthFactorId
  pub additional_required : ℕ

pub data AuthCombineMode : Type 0 where
  any_mode all_mode : AuthCombineMode
  policy : AuthPolicy → AuthCombineMode

-- core-auth/src/vault_meta.rs, the ids of the enrolled factors and the policy.
pub record VaultMetadata : Type 0 where
  pub enrolled_factors : List AuthFactorId
  pub auth_policy : AuthCombineMode

abbrev pub Key : Type 0
Key = List ℕ

pub record PartialUnlock : Type 0 where
  pub received_factors : Map AuthFactorId Key
  pub remaining_required : List AuthFactorId
  pub remaining_additional : ℕ
  pub deadline : ℕ

unfoldable pub is_complete : PartialUnlock → Bool
is_complete p = is_empty p.remaining_required && p.remaining_additional == 0

unfoldable pub is_expired : ℕ → PartialUnlock → Bool
is_expired now p = leb p.deadline now

abbrev pub contains : List AuthFactorId → AuthFactorId → Bool
contains fs f = any (λ g. factor_index g == factor_index f) fs

-- Collecting into a `HashSet`.
unfoldable pub to_set : List AuthFactorId → List AuthFactorId
to_set [] = []
to_set (f ∷ fs) = let rest = to_set fs in if contains rest f then rest else f ∷ rest

-- The required factors and the number of additional ones.
unfoldable pub requirement : VaultMetadata → List AuthFactorId × ℕ
unfolding to_set
requirement meta = elim meta.auth_policy [
  | any_mode ↦ ([], 0)
  | all_mode ↦ (to_set meta.enrolled_factors, 0)
  | policy p ↦ (to_set p.required, p.additional_required)
]

abbrev partial_unlock_timeout : ℕ
partial_unlock_timeout = 120 * 1000000000

unfoldable pub fresh_partial : VaultMetadata → ℕ → PartialUnlock
unfolding requirement
fresh_partial meta now = record {
  received_factors = [];
  remaining_required = (requirement meta).0;
  remaining_additional = (requirement meta).1;
  deadline = now + partial_unlock_timeout;
}

abbrev pub satisfied_by_one : AuthCombineMode → PartialUnlock → PartialUnlock
satisfied_by_one any_mode p = record p { remaining_required = []; remaining_additional = 0 }
satisfied_by_one _ p = p

unfoldable pub record_factor : VaultMetadata → AuthFactorId → Key → PartialUnlock → PartialUnlock
unfolding requirement
record_factor meta factor key p = satisfied_by_one meta.auth_policy (record {
  received_factors = insert factor key p.received_factors;
  remaining_required =
      retain (λ g. not (factor_index g == factor_index factor)) p.remaining_required;
  remaining_additional =
      if not (contains (requirement meta).0 factor) && ltb 0 p.remaining_additional
      then p.remaining_additional - 1
      else p.remaining_additional;
  deadline = p.deadline;
})

-- The factors that reach the partial unlock, oldest first.
unfoldable pub record_all :
    VaultMetadata → List (AuthFactorId × Key) → PartialUnlock → PartialUnlock
record_all meta [] p = p
record_all meta ((factor, key) ∷ subs) p = record_all meta subs (record_factor meta factor key p)
