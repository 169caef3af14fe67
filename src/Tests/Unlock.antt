-- ===== src/Tests/Unlock.antt =====
-- Tests of the unlocking with several factors and an instance of its theorem.
use open_sesame.Prelude.{◌≡◌, refl, true, [], ◌∷◌}
use open_sesame.Secrets.Unlock.Factor.{
  AuthFactorId, password, ssh_agent, fido2, tpm, fingerprint, yubikey,
}
use open_sesame.Secrets.Unlock.{
  any_mode, all_mode, policy, VaultMetadata, fresh_partial, record_factor, record_all, is_complete,
  contains, requirement, is_expired,
}
use open_sesame.Secrets.Unlock.Required.{submitted}

abbrev both : VaultMetadata
both = record { enrolled_factors = password ∷ ssh_agent ∷ []; auth_policy = all_mode }

abbrev one_of : VaultMetadata
one_of = record { enrolled_factors = password ∷ ssh_agent ∷ []; auth_policy = any_mode }

abbrev with_two_more : VaultMetadata
with_two_more = record {
  enrolled_factors = password ∷ ssh_agent ∷ fido2 ∷ [];
  auth_policy = policy (record { required = password ∷ []; additional_required = 2 });
}

both_submitted :
    is_complete
      (record_all both ((ssh_agent, 1 ∷ []) ∷ (password, 2 ∷ []) ∷ []) (fresh_partial both 0))
    ≡ true
unfolding is_complete fresh_partial record_all record_factor
both_submitted = refl

one_submitted :
    is_complete (record_factor one_of ssh_agent (1 ∷ []) (fresh_partial one_of 0)) ≡ true
unfolding is_complete fresh_partial record_factor
one_submitted = refl

-- The same additional factor twice counts as two.
counted_twice :
    is_complete (
      record_all with_two_more
        ((password, 2 ∷ []) ∷ (ssh_agent, 1 ∷ []) ∷ (ssh_agent, 1 ∷ []) ∷ [])
        (fresh_partial with_two_more 0))
    ≡ true
unfolding is_complete fresh_partial record_all record_factor
counted_twice = refl

after_two_minutes : is_expired 120000000000 (fresh_partial both 0) ≡ true
unfolding is_expired fresh_partial
after_two_minutes = refl

password_needed : contains (requirement both).0 password ≡ true
unfolding requirement
password_needed = refl

all_of_both :
    (g : AuthFactorId)
    → contains both.enrolled_factors g ≡ true
    → submitted ((ssh_agent, 1 ∷ []) ∷ (password, 2 ∷ []) ∷ (ssh_agent, 3 ∷ []) ∷ []) g ≡ true
all_of_both password h = refl
all_of_both ssh_agent h = refl
all_of_both fido2 h = cc
all_of_both tpm h = cc
all_of_both fingerprint h = cc
all_of_both yubikey h = cc
