-- ===== src/Ipc/Registry.antt =====
-- core-ipc/src/registry.rs: the daemons' identities by name, and the index from public keys to names.
pub mod Consistent
pub mod Register
pub mod Pending
pub mod History
pub mod Rotation
use open_sesame.Prelude.{ℕ, ◌+◌, ◌%◌, ◌^◌, Bool, true, false, Option, none, some, []}
use mathlib.Core.List.{map}
use open_sesame.Prelude.Text.{Text}
use open_sesame.Prelude.Maps.{Map, list_eq, get, insert, remove}
use open_sesame.Types.{SecurityLevel}

-- The 32 bytes of an X25519 public key.
abbrev pub Pubkey : Type 0
Pubkey = Text

pub record DaemonIdentity : Type 0 where
  pub current_pubkey : Pubkey
  pub pending_pubkey : Option Pubkey
  pub security_level : SecurityLevel
  pub generation : ℕ

pub record ClearanceRegistry : Type 0 where
  pub identities : Map Text DaemonIdentity
  pub pubkey_index : Map Pubkey Text

unfoldable pub new : ClearanceRegistry
new = record { identities = []; pubkey_index = [] }

abbrev pub remove_pending : Option Pubkey → Map Pubkey Text → Map Pubkey Text
remove_pending none index = index
remove_pending (some pending) index = remove pending index

-- The index without the keys of an identity.
unfoldable pub remove_keys : Option DaemonIdentity → Map Pubkey Text → Map Pubkey Text
remove_keys none index = index
remove_keys (some id) index = remove_pending id.pending_pubkey (remove id.current_pubkey index)

unfoldable pub register_with_generation :
    Text → Pubkey → SecurityLevel → ℕ → ClearanceRegistry → ClearanceRegistry
unfolding remove_keys
register_with_generation name pubkey level generation r = record {
  identities =
      insert name
        (record {
          current_pubkey = pubkey;
          pending_pubkey = none;
          security_level = level;
          generation = generation;
        })
        r.identities;
  pubkey_index = insert pubkey name (remove_keys (get r.identities name) r.pubkey_index);
}

unfoldable pub register : Text → Pubkey → SecurityLevel → ClearanceRegistry → ClearanceRegistry
unfolding register_with_generation
register name pubkey level = register_with_generation name pubkey level 0

unfoldable pub lookup_name : ClearanceRegistry → Pubkey → Option Text
lookup_name r pubkey = get r.pubkey_index pubkey

unfoldable pub find_by_name : ClearanceRegistry → Text → Option DaemonIdentity
find_by_name r name = get r.identities name

unfoldable pub lookup : ClearanceRegistry → Pubkey → Option DaemonIdentity
unfolding lookup_name find_by_name
lookup r pubkey = elim (lookup_name r pubkey) [ none ↦ none | some name ↦ find_by_name r name ]

abbrev pub with_pending : Text → Pubkey → DaemonIdentity → ClearanceRegistry → ClearanceRegistry
with_pending daemon_name new_pubkey id r = record {
  identities = insert daemon_name (record id { pending_pubkey = some new_pubkey }) r.identities;
  pubkey_index = insert new_pubkey daemon_name (remove_pending id.pending_pubkey r.pubkey_index);
}

unfoldable pub register_pending : Text → Pubkey → ClearanceRegistry → Bool × ClearanceRegistry
register_pending daemon_name new_pubkey r = elim (get r.identities daemon_name) [
  | none ↦ (false, r)
  | some id ↦ (true, with_pending daemon_name new_pubkey id r)
]

-- The generation is a `u64`, which wraps in a release build.
abbrev pub promoted : Pubkey → DaemonIdentity → DaemonIdentity
promoted new_pubkey id = record id {
  current_pubkey = new_pubkey;
  pending_pubkey = none;
  generation = (id.generation + 1) % 2 ^ 64;
}

abbrev pub promote_pending :
    Text → DaemonIdentity → Option Pubkey → ClearanceRegistry → Bool × ClearanceRegistry
promote_pending daemon_name id none r = (false, r)
promote_pending daemon_name id (some new_pubkey) r = (
  true,
  record {
    identities = insert daemon_name (promoted new_pubkey id) r.identities;
    pubkey_index = remove id.current_pubkey r.pubkey_index;
  },
)

unfoldable pub finalize_rotation : Text → ClearanceRegistry → Bool × ClearanceRegistry
finalize_rotation daemon_name r = elim (get r.identities daemon_name) [
  | none ↦ (false, r)
  | some id ↦ promote_pending daemon_name id id.pending_pubkey r
]

unfoldable pub revoke_by_name : Text → ClearanceRegistry → Option DaemonIdentity × ClearanceRegistry
unfolding remove_keys
revoke_by_name daemon_name r = elim (get r.identities daemon_name) [
  | none ↦ (none, r)
  | some id ↦ (
    some id,
    record {
      identities = remove daemon_name r.identities;
      pubkey_index = remove_keys (some id) r.pubkey_index;
    },
  )
]

unfoldable pub snapshot_generations : ClearanceRegistry → Map Text ℕ
snapshot_generations r = map (λ entry. (entry.0, entry.1.generation)) r.identities
