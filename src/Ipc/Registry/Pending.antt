-- ===== src/Ipc/Registry/Pending.antt =====
-- The two phases of a key rotation keep the maps of the registry consistent.
use open_sesame.Prelude.{◌≡◌, refl, sym, ap, subst, ◌∙◌, ◌≢◌, inl, inr, some}
use open_sesame.Prelude.Text.{Text}
use open_sesame.Prelude.Maps.{
  Map, list_eq, get, insert, remove, get-remove_iff, get-insert, get-insert_ne, get-insert_iff,
}
use open_sesame.Ipc.Registry.{
  Pubkey, DaemonIdentity, ClearanceRegistry, remove_pending, promoted, lookup_name, with_pending,
  promote_pending,
}
use open_sesame.Ipc.Registry.Consistent.{
  Has, HasAny, IsConsistent, Replaces-IsConsistent, some-inj, get-remove_pending,
}
use open_sesame.Ipc.Registry.Register.{IsFree}

module _ (r : ClearanceRegistry) (name : Text) (id : DaemonIdentity)
    (present : get r.identities name ≡ some id) (c : IsConsistent r) where
  indexed-Has : (key : Pubkey) → get r.pubkey_index key ≡ some name → Has id key
  indexed-Has key h = subst (λ q. HasAny q key) present ((c.agrees key name).0 h)

  Has-indexed : (key : Pubkey) → Has id key → get r.pubkey_index key ≡ some name
  Has-indexed key h = (c.agrees key name).1 (subst (λ q. HasAny q key) (sym present) h)

  same_owner : (key : Pubkey) (n : Text) → Has id key → get r.pubkey_index key ≡ some n → name ≡ n
  same_owner key n has h = some-inj name n (sym (Has-indexed key has) ∙ h)

  module _ (new_pubkey : Pubkey) (free : IsFree r name new_pubkey)
      (fresh : new_pubkey ≢ id.current_pubkey) where
    rest : Map Pubkey Text
    rest = remove_pending id.pending_pubkey r.pubkey_index

    pending : DaemonIdentity
    pending = record id { pending_pubkey = some new_pubkey }

    pending-owned_to :
        (key : Pubkey) → get (insert new_pubkey name rest) key ≡ some name → Has pending key
    unfolding rest pending
    pending-owned_to key h = elim ((get-insert_iff new_pubkey key name rest name).0 h) [
      | inl here ↦ inr (ap some here.0)
      | inr there ↦ kept ((get-remove_pending id.pending_pubkey r.pubkey_index key name).0 there.1)
    ]
      where
        kept :
            (id.pending_pubkey ≢ some key) × (get r.pubkey_index key ≡ some name) → Has pending key
        kept g = elim (indexed-Has key g.1) [
          | inl current ↦ inl current
          | inr old ↦ absurd (g.0 old)
        ]

    pending-owned_from :
        (key : Pubkey) → Has pending key → get (insert new_pubkey name rest) key ≡ some name
    unfolding rest pending
    pending-owned_from key (inl current) = (get-insert_iff new_pubkey key name rest name).1 (
        inr (
          λ h. fresh (h ∙ sym current),
          (get-remove_pending id.pending_pubkey r.pubkey_index key name).1 (
            λ h. c.differ name id present (h ∙ ap some (sym current)),
            Has-indexed key (inl current),
          ),
        ))
    pending-owned_from key (inr h) =
        (get-insert_iff new_pubkey key name rest name).1 (inl (some-inj new_pubkey key h, refl))

    pending-others_to :
        (key : Pubkey) (n : Text)
        → name ≢ n
        → get (insert new_pubkey name rest) key ≡ some n
        → get r.pubkey_index key ≡ some n
    unfolding rest
    pending-others_to key n ne h = elim ((get-insert_iff new_pubkey key name rest n).0 h) [
      | inl here ↦ absurd (ne here.1)
      | inr there ↦ ((get-remove_pending id.pending_pubkey r.pubkey_index key n).0 there.1).1
    ]

    pending-others_from :
        (key : Pubkey) (n : Text)
        → name ≢ n
        → get r.pubkey_index key ≡ some n
        → get (insert new_pubkey name rest) key ≡ some n
    unfolding rest lookup_name
    pending-others_from key n ne h = (get-insert_iff new_pubkey key name rest n).1 (
        inr (
          λ here. ne (sym (free n (ap (get r.pubkey_index) here ∙ h))),
          (get-remove_pending id.pending_pubkey r.pubkey_index key n).1
              (λ old. ne (same_owner key n (inr old) h), h),
        ))

    pub with_pending-IsConsistent : IsConsistent (with_pending name new_pubkey id r)
    unfolding rest pending
    with_pending-IsConsistent =
        Replaces-IsConsistent name (some pending) r (with_pending name new_pubkey id r)
          (record {
            replaced = get-insert name pending r.identities;
            kept = λ n ne. get-insert_ne name n pending r.identities ne;
            owned = λ key. (pending-owned_to key, pending-owned_from key);
            others = λ key n ne. (pending-others_to key n ne, pending-others_from key n ne);
          })
          (λ i h d. fresh (stays i h d)) c
      where
        stays :
            (i : DaemonIdentity)
            → some pending ≡ some i
            → i.pending_pubkey ≡ some i.current_pubkey
            → new_pubkey ≡ id.current_pubkey
        stays i h d =
            let e : pending ≡ i = unwrap i h in
            some-inj new_pubkey id.current_pubkey
              (subst (λ j. j.pending_pubkey ≡ some j.current_pubkey) (sym e) d)
          where
            unwrap : (i : DaemonIdentity) → some pending ≡ some i → pending ≡ i
            unwrap i h = cc

  module _ (new_pubkey : Pubkey) (waiting : id.pending_pubkey ≡ some new_pubkey) where
    promoted-owned_to :
        (key : Pubkey)
        → get (remove id.current_pubkey r.pubkey_index) key ≡ some name
        → Has (promoted new_pubkey id) key
    promoted-owned_to key h = kept ((get-remove_iff id.current_pubkey key r.pubkey_index name).0 h)
      where
        kept :
            (id.current_pubkey ≢ key) × (get r.pubkey_index key ≡ some name)
            → Has (promoted new_pubkey id) key
        kept g = elim (indexed-Has key g.1) [
          | inl current ↦ absurd (g.0 current)
          | inr old ↦ inl (some-inj new_pubkey key (sym waiting ∙ old))
        ]

    promoted-owned_from :
        (key : Pubkey)
        → Has (promoted new_pubkey id) key
        → get (remove id.current_pubkey r.pubkey_index) key ≡ some name
    promoted-owned_from key (inl here) =
        (get-remove_iff id.current_pubkey key r.pubkey_index name).1 (
          λ h. c.differ name id present (waiting ∙ ap some (here ∙ sym h)),
          Has-indexed key (inr (waiting ∙ ap some here)),
        )
    promoted-owned_from key (inr d) = cc

    pub promote_pending-IsConsistent : IsConsistent (promote_pending name id (some new_pubkey) r).1
    promote_pending-IsConsistent =
        Replaces-IsConsistent name (some (promoted new_pubkey id)) r
          (promote_pending name id (some new_pubkey) r).1
          (record {
            replaced = get-insert name (promoted new_pubkey id) r.identities;
            kept = λ n ne. get-insert_ne name n (promoted new_pubkey id) r.identities ne;
            owned = λ key. (promoted-owned_to key, promoted-owned_from key);
            others = λ key n ne. (
              λ h. ((get-remove_iff id.current_pubkey key r.pubkey_index n).0 h).1,
              λ h.
                  (get-remove_iff id.current_pubkey key r.pubkey_index n).1
                    (λ current. ne (same_owner key n (inl current) h), h),
            );
          })
          (λ i h d. cc) c
