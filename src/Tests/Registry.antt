-- ===== src/Tests/Registry.antt =====
-- Tests of the registry of the daemons and instances of its theorems.
use open_sesame.Prelude.{◌≡◌, refl, ◌↔◌, some, none, [], ◌∷◌}
use open_sesame.Prelude.Text.{text_eq, Text, codes}
use open_sesame.Prelude.Maps.{insert, get}
use open_sesame.Types.{internal, secrets_only}
use open_sesame.Ipc.Registry.{
  Pubkey, DaemonIdentity, ClearanceRegistry, new, register_with_generation, lookup, lookup_name,
  find_by_name,
}
use open_sesame.Ipc.Registry.Consistent.{IsConsistent, Has}
use open_sesame.Ipc.Registry.History.{
  Reaches, started, registered, Reaches-IsConsistent, lookup_iff,
}
use open_sesame.Ipc.Registry.Register.{unknown-IsFree}
use open_sesame.Ipc.Registry.Rotation.{IsRotated, rotate-IsRotated}

abbrev launcher : Text
launcher = codes "daemon-launcher"

abbrev secrets : Text
secrets = codes "daemon-secrets"

abbrev key_a : Pubkey
key_a = 17 ∷ 4 ∷ []

abbrev key_b : Pubkey
key_b = 99 ∷ 250 ∷ []

abbrev key_c : Pubkey
key_c = 3 ∷ 3 ∷ []

abbrev two_daemons : ClearanceRegistry
two_daemons =
    register_with_generation secrets key_b secrets_only 3
      (register_with_generation launcher key_a internal 0 new)

abbrev launcher_identity : DaemonIdentity
launcher_identity = record {
  current_pubkey = key_a;
  pending_pubkey = none;
  security_level = internal;
  generation = 0;
}

two_daemons-Reaches : Reaches two_daemons
unfolding lookup_name get new register_with_generation insert text_eq
two_daemons-Reaches =
    registered secrets key_b secrets_only 3
      (registered launcher key_a internal 0 started (unknown-IsFree new launcher key_a refl))
      (unknown-IsFree (register_with_generation launcher key_a internal 0 new) secrets key_b refl)

lookup_a : lookup two_daemons key_a ≡ some launcher_identity
unfolding lookup get register_with_generation insert text_eq new
lookup_a = refl

found_launcher : find_by_name two_daemons launcher ≡ some launcher_identity
unfolding find_by_name get register_with_generation insert text_eq
found_launcher = refl

-- A key that another daemon has: the index has it for the second one only, and the first daemon's
-- identity is no longer resolved by its own key.
taken_key :
    lookup_name
      (register_with_generation secrets key_a secrets_only 0
        (register_with_generation launcher key_a internal 0 new))
      key_a
    ≡ some secrets
unfolding lookup_name get register_with_generation insert text_eq
taken_key = refl

Reaches-IsConsistent_example : IsConsistent two_daemons
Reaches-IsConsistent_example = Reaches-IsConsistent two_daemons-Reaches

lookup_iff_example : (lookup two_daemons key_a ≡ some launcher_identity) ↔ (
    (name : Text) × (find_by_name two_daemons name ≡ some launcher_identity)
    × Has launcher_identity key_a)
lookup_iff_example = lookup_iff two_daemons key_a launcher_identity two_daemons-Reaches

rotate-IsRotated_example : IsRotated launcher key_c launcher_identity two_daemons
unfolding lookup_name find_by_name get register_with_generation insert text_eq new
rotate-IsRotated_example =
    rotate-IsRotated two_daemons launcher launcher_identity key_c two_daemons-Reaches found_launcher
      (unknown-IsFree two_daemons launcher key_c refl) (λ id h d. cc)
