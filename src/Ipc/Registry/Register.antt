-- ===== src/Ipc/Registry/Register.antt =====
-- Registering and revoking a daemon keep the maps of the registry consistent.
use open_sesame.Prelude.{
  ℕ, ◌≡◌, refl, sym, ap, subst, ◌∙◌, ◌≢◌, ◌↔◌, inl, inr, Option, Option-cases, none, some,
}
use open_sesame.Prelude.Text.{Text}
use open_sesame.Prelude.Maps.{
  Map, list_eq, get, insert, remove, get-remove, get-remove_ne, get-insert, get-insert_ne,
  get-insert_iff,
}
use open_sesame.Types.{SecurityLevel}
use open_sesame.Ipc.Registry.{
  Pubkey, DaemonIdentity, ClearanceRegistry, remove_keys, register_with_generation, lookup_name,
  revoke_by_name,
}
use open_sesame.Ipc.Registry.Consistent.{
  Has, HasAny, IsConsistent, Replaces, Replaces-IsConsistent, some-inj, get-remove_keys,
}

-- A key is free for a name if the index does not have it for another name.
abbrev pub IsFree : ClearanceRegistry → Text → Pubkey → Type 0
IsFree r name key = (n : Text) → lookup_name r key ≡ some n → n ≡ name

-- A key that the index does not have is free.
pub unknown-IsFree :
    (r : ClearanceRegistry) (name : Text) (key : Pubkey)
    → lookup_name r key ≡ none
    → IsFree r name key
unknown-IsFree r name key unknown n h = absurd (none-ne-some (sym unknown ∙ h))
  where
    none-ne-some : none ≡ some n → ⊥
    none-ne-some d = cc

module _ (r : ClearanceRegistry) (name : Text) (c : IsConsistent r) where
  owner :
      (key : Pubkey) (n : Text)
      → get r.pubkey_index key ≡ some name
      → get r.pubkey_index key ≡ some n
      → name ≡ n
  owner key n h g = some-inj name n (sym h ∙ g)

  -- What is left of the index when the keys of the name's identity are removed.
  unindexed :
      (key : Pubkey) → get (remove_keys (get r.identities name) r.pubkey_index) key ≢ some name
  unindexed key = at (get r.identities name) refl
    where
      at :
          (o : Option DaemonIdentity)
          → get r.identities name ≡ o
          → get (remove_keys o r.pubkey_index) key ≢ some name
      at none h e = subst (λ q. HasAny q key) h ((c.agrees key name).0 (unfold remove_keys in e))
      at (some id) h e =
          let g = (get-remove_keys id r.pubkey_index key name).0 e in
          g.0 (subst (λ q. HasAny q key) h ((c.agrees key name).0 g.1))

  unindexed_others :
      (key : Pubkey) (n : Text)
      → name ≢ n
      → (get (remove_keys (get r.identities name) r.pubkey_index) key ≡ some n)
        ↔ (get r.pubkey_index key ≡ some n)
  unindexed_others key n ne = at (get r.identities name) refl
    where
      at :
          (o : Option DaemonIdentity)
          → get r.identities name ≡ o
          → (get (remove_keys o r.pubkey_index) key ≡ some n) ↔ (get r.pubkey_index key ≡ some n)
      at none h = unfold remove_keys in (λ e. e, λ e. e)
      at (some id) h = (
        λ e. ((get-remove_keys id r.pubkey_index key n).0 e).1,
        λ e. (get-remove_keys id r.pubkey_index key n).1 (
          λ has. ne (owner key n ((c.agrees key name).1 (subst (λ q. HasAny q key) (sym h) has)) e),
          e,
        ),
      )

  pub register-IsConsistent :
      (pubkey : Pubkey) (level : SecurityLevel) (generation : ℕ)
      → IsFree r name pubkey
      → IsConsistent (register_with_generation name pubkey level generation r)
  unfolding register_with_generation lookup_name
  register-IsConsistent pubkey level generation free =
      Replaces-IsConsistent name (some id) r
        (register_with_generation name pubkey level generation r)
        (record {
          replaced = get-insert name id r.identities;
          kept = λ n ne. get-insert_ne name n id r.identities ne;
          owned = λ key. (owned_to key, owned_from key);
          others = λ key n ne. (others_to key n ne, others_from key n ne);
        })
        (λ i h d. cc) c
    where
      id : DaemonIdentity
      id = record {
        current_pubkey = pubkey;
        pending_pubkey = none;
        security_level = level;
        generation = generation;
      }

      rest : Map Pubkey Text
      rest = remove_keys (get r.identities name) r.pubkey_index

      owned_to : (key : Pubkey) → get (insert pubkey name rest) key ≡ some name → Has id key
      owned_to key h = elim ((get-insert_iff pubkey key name rest name).0 h) [
        | inl here ↦ inl here.0
        | inr there ↦ absurd (unindexed key there.1)
      ]

      owned_from : (key : Pubkey) → Has id key → get (insert pubkey name rest) key ≡ some name
      owned_from key (inl here) = (get-insert_iff pubkey key name rest name).1 (inl (here, refl))
      owned_from key (inr d) = cc

      others_to :
          (key : Pubkey) (n : Text)
          → name ≢ n
          → get (insert pubkey name rest) key ≡ some n
          → get r.pubkey_index key ≡ some n
      others_to key n ne h = elim ((get-insert_iff pubkey key name rest n).0 h) [
        | inl here ↦ absurd (ne here.1)
        | inr there ↦ (unindexed_others key n ne).0 there.1
      ]

      others_from :
          (key : Pubkey) (n : Text)
          → name ≢ n
          → get r.pubkey_index key ≡ some n
          → get (insert pubkey name rest) key ≡ some n
      others_from key n ne h = (get-insert_iff pubkey key name rest n).1 (
          inr (
            λ here. ne (sym (free n (ap (get r.pubkey_index) here ∙ h))),
            (unindexed_others key n ne).1 h,
          ))

  pub revoke_by_name-IsConsistent : IsConsistent (revoke_by_name name r).1
  unfolding revoke_by_name
  revoke_by_name-IsConsistent = elim (Option-cases (get r.identities name)) [
    | inl absent ↦ rw (absent, revoke_by_name) c
    | inr (id, present) ↦
        rw (present, revoke_by_name)
          (Replaces-IsConsistent name none r
            (record {
              identities = remove name r.identities;
              pubkey_index = remove_keys (some id) r.pubkey_index;
            })
            (subst
              (λ o. Replaces name none r (record {
                identities = remove name r.identities;
                pubkey_index = remove_keys o r.pubkey_index;
              }))
              present
              (record {
                replaced = get-remove name r.identities;
                kept = λ n ne. get-remove_ne name n r.identities ne;
                owned = λ key. (unindexed key, λ h. absurd h);
                others = unindexed_others;
              }))
            (λ i h d. cc) c)
  ]
