-- ===== src/Ipc/Registry/History.antt =====
-- What holds of every registry that the program can build.
use open_sesame.Prelude.{ℕ, ◌≡◌, sym, subst, ◌≢◌, ◌↔◌, inl, inr, Option-cases, none, some, arith}
use open_sesame.Prelude.Text.{Text}
use open_sesame.Prelude.Maps.{list_eq, get}
use open_sesame.Types.{SecurityLevel}
use open_sesame.Ipc.Registry.{
  Pubkey, DaemonIdentity, ClearanceRegistry, new, register_with_generation, lookup, lookup_name,
  find_by_name, register_pending, finalize_rotation, promote_pending, revoke_by_name,
}
use open_sesame.Ipc.Registry.Consistent.{Has, HasAny, IsConsistent, new-IsConsistent}
use open_sesame.Ipc.Registry.Register.{IsFree, register-IsConsistent, revoke_by_name-IsConsistent}
use open_sesame.Ipc.Registry.Pending.{with_pending-IsConsistent, promote_pending-IsConsistent}

-- A key that is not the current one of a name's identity.
abbrev pub IsFresh : ClearanceRegistry → Text → Pubkey → Type 0
IsFresh r name key = (id : DaemonIdentity) → find_by_name r name ≡ some id → key ≢ id.current_pubkey

-- The registries that the mutations build from the empty one, if a key that comes in is not another
-- daemon's, and a pending key is not the current one.
pub data Reaches : ClearanceRegistry → Type 0 where
  started : Reaches new
  registered :
      {r : ClearanceRegistry} (name : Text) (pubkey : Pubkey) (level : SecurityLevel)
      (generation : ℕ)
      → Reaches r
      → IsFree r name pubkey
      → Reaches (register_with_generation name pubkey level generation r)
  pended :
      {r : ClearanceRegistry} (name : Text) (new_pubkey : Pubkey)
      → Reaches r
      → IsFree r name new_pubkey
      → IsFresh r name new_pubkey
      → Reaches (register_pending name new_pubkey r).1
  finalized :
      {r : ClearanceRegistry} (name : Text) → Reaches r → Reaches (finalize_rotation name r).1
  revoked : {r : ClearanceRegistry} (name : Text) → Reaches r → Reaches (revoke_by_name name r).1

register_pending-IsConsistent :
    (r : ClearanceRegistry) (name : Text) (new_pubkey : Pubkey)
    → IsConsistent r
    → IsFree r name new_pubkey
    → IsFresh r name new_pubkey
    → IsConsistent (register_pending name new_pubkey r).1
unfolding register_pending find_by_name
register_pending-IsConsistent r name new_pubkey c free fresh =
    elim (Option-cases (get r.identities name)) [
      | inl absent ↦ rw (absent, register_pending) c
      | inr (id, present) ↦
          rw (present, register_pending)
            (with_pending-IsConsistent r name id present c new_pubkey free (fresh id present))
    ]

finalize_rotation-IsConsistent :
    (r : ClearanceRegistry) (name : Text)
    → IsConsistent r
    → IsConsistent (finalize_rotation name r).1
unfolding finalize_rotation
finalize_rotation-IsConsistent r name c = elim (Option-cases (get r.identities name)) [
  | inl absent ↦ rw (absent, finalize_rotation) c
  | inr (id, present) ↦ rw (present, finalize_rotation) (promote id present)
]
  where
    promote :
        (id : DaemonIdentity)
        → get r.identities name ≡ some id
        → IsConsistent (promote_pending name id id.pending_pubkey r).1
    promote id present = elim (Option-cases id.pending_pubkey) [
      | inl idle ↦ rw idle c
      | inr (key, waiting) ↦
          rw waiting (promote_pending-IsConsistent r name id present c key waiting)
    ]

-- A registry that the mutations build from the empty one, with no key that is another daemon's and
-- no pending key that is the current one, is consistent: the index has exactly the current and the
-- pending keys of the identities, each under its daemon's name.
pub Reaches-IsConsistent : {r : ClearanceRegistry} → Reaches r → IsConsistent r
Reaches-IsConsistent started = new-IsConsistent
Reaches-IsConsistent (registered {r} name pubkey level generation before free) =
    register-IsConsistent r name (Reaches-IsConsistent before) pubkey level generation free
Reaches-IsConsistent (pended {r} name new_pubkey before free fresh) =
    register_pending-IsConsistent r name new_pubkey (Reaches-IsConsistent before) free fresh
Reaches-IsConsistent (finalized {r} name before) =
    finalize_rotation-IsConsistent r name (Reaches-IsConsistent before)
Reaches-IsConsistent (revoked {r} name before) =
    revoke_by_name-IsConsistent r name (Reaches-IsConsistent before)

-- In a registry that is built so (`Reaches`) a public key is resolved to an identity exactly when
-- the identity is the one of some daemon, and the key its current or its pending one.
pub lookup_iff :
    (r : ClearanceRegistry) (key : Pubkey) (id : DaemonIdentity)
    → Reaches r
    → (lookup r key ≡ some id) ↔ ((name : Text) × (find_by_name r name ≡ some id) × Has id key)
unfolding lookup lookup_name find_by_name
lookup_iff r key id reaches = (resolved, resolves)
  where
    c : IsConsistent r
    c = Reaches-IsConsistent reaches

    resolved :
        lookup r key ≡ some id → (name : Text) × (get r.identities name ≡ some id) × Has id key
    resolved h = elim (Option-cases (get r.pubkey_index key)) [
      | inl absent ↦ absurd (nothing absent h)
      | inr (name, present) ↦
          let found : get r.identities name ≡ some id = there name present h in
          (name, found, subst (λ q. HasAny q key) found ((c.agrees key name).0 present))
    ]
      where
        nothing : get r.pubkey_index key ≡ none → lookup r key ≡ some id → ⊥
        nothing absent h = ground (arith, absent, h)

        there :
            (name : Text)
            → get r.pubkey_index key ≡ some name
            → lookup r key ≡ some id
            → get r.identities name ≡ some id
        there name present h = ground (arith, present, h)

    resolves :
        ((name : Text) × (get r.identities name ≡ some id) × Has id key) → lookup r key ≡ some id
    resolves (name, found, has) =
        rw ((c.agrees key name).1 (subst (λ q. HasAny q key) (sym found) has), lookup) found
