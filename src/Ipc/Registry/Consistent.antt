-- ===== src/Ipc/Registry/Consistent.antt =====
-- The consistency of the two maps of the registry, as `debug_assert_consistent` checks it.
use open_sesame.Prelude.{◌≡◌, sym, ap, subst, ◌∙◌, ◌≢◌, ◌↔◌, ◌⊎◌, inl, inr, Option, none, some}
use open_sesame.Prelude.Text.{Text}
use open_sesame.Prelude.Maps.{Map, list_eq, get, remove, key-cases, get-remove_iff}
use open_sesame.Ipc.Registry.{
  Pubkey, DaemonIdentity, ClearanceRegistry, new, remove_pending, remove_keys,
}

-- A key is one of an identity's.
abbrev pub Has : DaemonIdentity → Pubkey → Type 0
Has id key = (id.current_pubkey ≡ key) ⊎ (id.pending_pubkey ≡ some key)

abbrev pub HasAny : Option DaemonIdentity → Pubkey → Type 0
HasAny none key = ⊥
HasAny (some id) key = Has id key

-- The index has exactly the keys of the identities, and a pending key is not the current one.
pub record IsConsistent (r : ClearanceRegistry) : Type 0 where
  pub agrees :
      (key : Pubkey) (name : Text)
      → (get r.pubkey_index key ≡ some name) ↔ HasAny (get r.identities name) key
  pub differ :
      (name : Text) (id : DaemonIdentity)
      → get r.identities name ≡ some id
      → id.pending_pubkey ≢ some id.current_pubkey

pub new-IsConsistent : IsConsistent new
unfolding new get
new-IsConsistent = record {
  agrees = λ key name. ((λ h. cc), λ h. absurd h);
  differ = λ name id h. cc;
}

pub some-inj : (s t : Text) → some s ≡ some t → s ≡ t
some-inj s t h = cc

-- What a mutation that replaces the identity of one name has to do to the index.
pub record Replaces (name : Text) (o : Option DaemonIdentity) (r s : ClearanceRegistry)
    : Type 0 where
  pub replaced : get s.identities name ≡ o
  pub kept : (n : Text) → name ≢ n → get s.identities n ≡ get r.identities n
  pub owned : (key : Pubkey) → (get s.pubkey_index key ≡ some name) ↔ HasAny o key
  pub others :
      (key : Pubkey) (n : Text)
      → name ≢ n
      → (get s.pubkey_index key ≡ some n) ↔ (get r.pubkey_index key ≡ some n)

pub Replaces-IsConsistent :
    (name : Text) (o : Option DaemonIdentity) (r s : ClearanceRegistry)
    → Replaces name o r s
    → ((id : DaemonIdentity) → o ≡ some id → id.pending_pubkey ≢ some id.current_pubkey)
    → IsConsistent r
    → IsConsistent s
Replaces-IsConsistent name o r s p own c = record {
  agrees = λ key n. elim (key-cases name n) [
    | inl same ↦
        subst (λ m. (get s.pubkey_index key ≡ some m) ↔ HasAny (get s.identities m) key) same
          (subst (λ q. (get s.pubkey_index key ≡ some name) ↔ HasAny q key) (sym p.replaced)
            (p.owned key))
    | inr other ↦
        subst (λ q. (get s.pubkey_index key ≡ some n) ↔ HasAny q key) (sym (p.kept n other))
          (
            λ h. (c.agrees key n).0 ((p.others key n other).0 h),
            λ h. (p.others key n other).1 ((c.agrees key n).1 h),
          )
  ];
  differ = λ n id h. elim (key-cases name n) [
    | inl same ↦ own id (sym p.replaced ∙ (ap (get s.identities) same ∙ h))
    | inr other ↦ c.differ n id (sym (p.kept n other) ∙ h)
  ];
}

-- The index without the keys of an identity.
pub get-remove_pending :
    (p : Option Pubkey) (index : Map Pubkey Text) (key : Pubkey) (n : Text)
    → (get (remove_pending p index) key ≡ some n) ↔ ((p ≢ some key) × (get index key ≡ some n))
get-remove_pending none index key n = (λ h. (λ d. cc, h), λ h. h.1)
get-remove_pending (some k) index key n = (
  λ h. let g = (get-remove_iff k key index n).0 h in (λ d. g.0 (some-inj k key d), g.1),
  λ h. (get-remove_iff k key index n).1 (λ d. h.0 (ap some d), h.1),
)

pub get-remove_keys :
    (id : DaemonIdentity) (index : Map Pubkey Text) (key : Pubkey) (n : Text)
    → (get (remove_keys (some id) index) key ≡ some n)
      ↔ ((Has id key → ⊥) × (get index key ≡ some n))
unfolding remove_keys
get-remove_keys id index key n = (
  λ h.
      let g = (get-remove_pending id.pending_pubkey (remove id.current_pubkey index) key n).0 h in
      let f = (get-remove_iff id.current_pubkey key index n).0 g.1 in
      (λ d. elim d [ inl a ↦ f.0 a | inr b ↦ g.0 b ], f.1),
  λ h.
      (get-remove_pending id.pending_pubkey (remove id.current_pubkey index) key n).1 (
        λ b. h.0 (inr b),
        (get-remove_iff id.current_pubkey key index n).1 (λ a. h.0 (inl a), h.1),
      ),
)
