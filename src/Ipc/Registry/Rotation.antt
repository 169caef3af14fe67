-- ===== src/Ipc/Registry/Rotation.antt =====
-- A whole key rotation: the grace period, and the end of the old key.
use open_sesame.Prelude.{◌+◌, ◌%◌, ◌^◌, ◌≡◌, refl, ap, ◌∙◌, inl, inr, true, none, some}
use open_sesame.Prelude.Text.{Text}
use open_sesame.Prelude.Maps.{list_eq, get, insert, remove, get-remove, get-insert}
use open_sesame.Ipc.Registry.{
  Pubkey, DaemonIdentity, ClearanceRegistry, lookup, lookup_name, find_by_name, register_pending,
  finalize_rotation, promoted, with_pending,
}
use open_sesame.Ipc.Registry.History.{Reaches, IsFresh, pended, finalized, lookup_iff}
use open_sesame.Ipc.Registry.Register.{IsFree}

abbrev pending_of : Text → Pubkey → ClearanceRegistry → ClearanceRegistry
pending_of name new_pubkey r = (register_pending name new_pubkey r).1

abbrev rotate : Text → Pubkey → ClearanceRegistry → ClearanceRegistry
rotate name new_pubkey r = (finalize_rotation name (pending_of name new_pubkey r)).1

-- During the grace period both keys are resolved to the daemon, and afterwards only the new one,
-- with the clearance kept and the next generation.
pub record IsRotated (name : Text) (new_pubkey : Pubkey) (id : DaemonIdentity)
    (r : ClearanceRegistry) : Type 0 where
  pub old_in_grace :
      lookup (pending_of name new_pubkey r) id.current_pubkey
      ≡ some (record id { pending_pubkey = some new_pubkey })
  pub new_in_grace :
      lookup (pending_of name new_pubkey r) new_pubkey
      ≡ some (record id { pending_pubkey = some new_pubkey })
  pub finalizes : (finalize_rotation name (pending_of name new_pubkey r)).0 ≡ true
  pub new_after :
      lookup (rotate name new_pubkey r) new_pubkey
      ≡ some (record {
        current_pubkey = new_pubkey;
        pending_pubkey = none;
        security_level = id.security_level;
        generation = (id.generation + 1) % 2 ^ 64;
      })
  pub old_after : lookup (rotate name new_pubkey r) id.current_pubkey ≡ none

module _ (r : ClearanceRegistry) (name : Text) (id : DaemonIdentity) (new_pubkey : Pubkey)
    (reaches : Reaches r) (present : find_by_name r name ≡ some id)
    (free : IsFree r name new_pubkey) (fresh : IsFresh r name new_pubkey) where
  pending : DaemonIdentity
  pending = record id { pending_pubkey = some new_pubkey }

  pending_of-lem : pending_of name new_pubkey r ≡ with_pending name new_pubkey id r
  unfolding find_by_name register_pending
  pending_of-lem = rewritten present
    where
      rewritten :
          get r.identities name ≡ some id
          → pending_of name new_pubkey r ≡ with_pending name new_pubkey id r
      rewritten h = rw (h, register_pending, pending_of) refl

  pending_of-found : find_by_name (pending_of name new_pubkey r) name ≡ some pending
  unfolding find_by_name pending
  pending_of-found =
      ap (λ s. get s.identities name) pending_of-lem ∙ get-insert name pending r.identities

  pending_of-Reaches : Reaches (pending_of name new_pubkey r)
  pending_of-Reaches = pended name new_pubkey reaches free fresh

  rotated_lem : finalize_rotation name (pending_of name new_pubkey r) ≡ (
    true,
    record {
      identities = insert name (promoted new_pubkey id) (pending_of name new_pubkey r).identities;
      pubkey_index = remove id.current_pubkey (pending_of name new_pubkey r).pubkey_index;
    },
  )
  unfolding pending find_by_name finalize_rotation insert remove
  rotated_lem = rw (pending_of-found, finalize_rotation) refl

  rotate-found : find_by_name (rotate name new_pubkey r) name ≡ some (promoted new_pubkey id)
  unfolding find_by_name
  rotate-found =
      ap (λ s. get s.1.identities name) rotated_lem
      ∙ get-insert name (promoted new_pubkey id) (pending_of name new_pubkey r).identities

  rotate-unindexed : get (rotate name new_pubkey r).pubkey_index id.current_pubkey ≡ none
  rotate-unindexed =
      ap (λ s. get s.1.pubkey_index id.current_pubkey) rotated_lem
      ∙ get-remove id.current_pubkey (pending_of name new_pubkey r).pubkey_index

  rotate-unresolved : lookup (rotate name new_pubkey r) id.current_pubkey ≡ none
  unfolding lookup lookup_name
  rotate-unresolved = rw (rotate-unindexed, lookup, lookup_name) refl

  -- A rotation of a known daemon to a key that is neither another daemon's nor its current one: in
  -- the grace period both keys are resolved to the daemon; after the second phase the new one is, as
  -- its current key with none pending, the clearance kept and the generation one more, as far as a
  -- word goes, and the old key is resolved to nothing.
  pub rotate-IsRotated : IsRotated name new_pubkey id r
  unfolding pending
  rotate-IsRotated = record {
    old_in_grace =
        (lookup_iff (pending_of name new_pubkey r) id.current_pubkey pending pending_of-Reaches).1
          (name, pending_of-found, inl refl);
    new_in_grace =
        (lookup_iff (pending_of name new_pubkey r) new_pubkey pending pending_of-Reaches).1
          (name, pending_of-found, inr refl);
    finalizes = ap (λ s. s.0) rotated_lem;
    new_after =
        (lookup_iff (rotate name new_pubkey r) new_pubkey (promoted new_pubkey id)
            (finalized name pending_of-Reaches)).1
          (name, rotate-found, inl refl);
    old_after = rotate-unresolved;
  }
