-- ===== src/Secrets/Daemon/Bounded.antt =====
-- What is active or open is unlocked.
use open_sesame.Prelude.{
  ◌≡◌, refl, sym, ap, ◌∙◌, subst, ◌⊎◌, inl, inr, Bool, true, false, ◌||◌, Bool-cases, Option, none,
  some, List, [], ◌∷◌, if◌then◌else◌, arith,
}
use open_sesame.Prelude.Text.{Text, text_eq, text_eq_iff}
use open_sesame.Prelude.Maps.{
  Map, list_eq, get, insert, get-insert, get-insert_ne, get-insert_iff, get-remove_iff,
  get-remove_ne, key-cases,
}
use open_sesame.Secrets.Unlock.{Key, VaultMetadata, PartialUnlock}
use open_sesame.Secrets.Daemon.{
  Outcome, ok, err, Vault, World, VaultState, has, insert_name, remove_name,
}
use open_sesame.Secrets.Daemon.Opening.{
  vault_for, vault_with_key, get_or_open, opened, activate_profile, deactivate_profile, put_vault,
}
use open_sesame.Secrets.Daemon.Unlocking.{keep_key, promote, lock_one, lock_all}

abbrev pub IsUnlocked : VaultState → Text → Type 0
IsUnlocked s profile = (key : Key) × (get s.master_keys profile ≡ some key)

pub record IsBounded (s : VaultState) : Type 0 where
  pub active : (profile : Text) → has profile s.active_profiles ≡ true → IsUnlocked s profile
  pub loaded :
      (profile : Text) (vault : Vault) → get s.vaults profile ≡ some vault → IsUnlocked s profile

or_cases : (a b : Bool) → (a || b) ≡ true → (a ≡ true) ⊎ (b ≡ true)
or_cases true b h = inl refl
or_cases false b h = inr h

has-insert_name :
    (p q : Text) (names : List Text)
    → has p (insert_name q names) ≡ true
    → (q ≡ p) ⊎ (has p names ≡ true)
has-insert_name p q names h = split (has q names) h
  where
    first : (text_eq q p ≡ true) ⊎ (has p names ≡ true) → (q ≡ p) ⊎ (has p names ≡ true)
    first (inl same) = inl ((text_eq_iff q p).0 same)
    first (inr old) = inr old

    split :
        (b : Bool) → has p (if b then names else q ∷ names) ≡ true → (q ≡ p) ⊎ (has p names ≡ true)
    split true there = inr there
    split false there = first (or_cases (text_eq q p) (has p names) there)

has-remove_name :
    (p q : Text) (names : List Text) → has p (remove_name q names) ≡ true → has p names ≡ true
has-remove_name p q [] h = h
has-remove_name p q (n ∷ names) h = ground (arith, has-remove_name p q names)

pub has-remove_name_self : (p : Text) (names : List Text) → has p (remove_name p names) ≡ false
has-remove_name_self p [] = refl
has-remove_name_self p (n ∷ names) = ground (arith, has-remove_name_self p names)

module _ (s : VaultState) (v : IsBounded s) where
  pub put_vault-IsBounded :
      (profile : Text) (vault : Vault)
      → IsUnlocked s profile
      → IsBounded (put_vault profile vault s)
  put_vault-IsBounded profile vault u = record {
    active = v.active;
    loaded = λ q w h. elim ((get-insert_iff profile q vault s.vaults w).0 h) [
      | inl (same, _) ↦ subst (IsUnlocked s) same u
      | inr (_, old) ↦ v.loaded q w old
    ];
  }

  opened-IsBounded :
      (profile : Text) (o : Outcome (Map Text Text))
      → IsUnlocked s profile
      → IsBounded (opened profile o s).1
  opened-IsBounded profile (err e) u = v
  opened-IsBounded profile (ok store) u = put_vault-IsBounded profile _ u

  get_or_open-IsBounded :
      (world : World) (profile : Text) (key : Key) (o : Option Vault)
      → IsUnlocked s profile
      → IsBounded (get_or_open world profile key o s).1
  get_or_open-IsBounded world profile key (some vault) u = v
  get_or_open-IsBounded world profile key none u = opened-IsBounded profile _ u

  vault_with_key-IsBounded :
      (world : World) (profile : Text) (o : Option Key)
      → get s.master_keys profile ≡ o
      → IsBounded (vault_with_key world profile o s).1
  vault_with_key-IsBounded world profile none e = v
  vault_with_key-IsBounded world profile (some key) e =
      get_or_open-IsBounded world profile key (get s.vaults profile) (key, e)

  pub vault_for-IsBounded :
      (world : World) (profile : Text) → IsBounded (vault_for world profile s).1
  unfolding vault_for
  vault_for-IsBounded world profile = elim (Bool-cases (has profile s.active_profiles)) [
    | inl on ↦ rw on (vault_with_key-IsBounded world profile (get s.master_keys profile) refl)
    | inr off ↦ rw off v
  ]

  pub activate_profile-IsBounded :
      (profile : Text) → IsUnlocked s profile → IsBounded (activate_profile profile s)
  unfolding activate_profile
  activate_profile-IsBounded profile u = record {
    active = λ q h. elim (has-insert_name q profile s.active_profiles h) [
      | inl same ↦ subst (IsUnlocked s) same u
      | inr old ↦ v.active q old
    ];
    loaded = v.loaded;
  }

  pub remove_active-IsBounded :
      (profile : Text)
      → IsBounded (record s { active_profiles = remove_name profile s.active_profiles })
  remove_active-IsBounded profile = record {
    active = λ q h. v.active q (has-remove_name q profile s.active_profiles h);
    loaded = v.loaded;
  }

  pub deactivate_profile-IsBounded : (profile : Text) → IsBounded (deactivate_profile profile s)
  unfolding deactivate_profile
  deactivate_profile-IsBounded profile = record {
    active = λ q h. v.active q (has-remove_name q profile s.active_profiles h);
    loaded = λ q w h. v.loaded q w ((get-remove_iff profile q s.vaults w).0 h).1;
  }

  pub partial-IsBounded :
      (m : Map Text PartialUnlock) → IsBounded (record s { partial_unlocks = m })
  partial-IsBounded m = record { active = v.active; loaded = v.loaded }

  -- Another key does not lock what is unlocked.
  insert-IsUnlocked :
      (target : Text) (key : Key) (profile : Text)
      → IsUnlocked s profile
      → (k : Key) × (get (insert target key s.master_keys) profile ≡ some k)
  insert-IsUnlocked target key profile (k, present) = elim (key-cases target profile) [
    | inl same ↦ (
      key,
      sym (ap (get (insert target key s.master_keys)) same) ∙ get-insert target key s.master_keys,
    )
    | inr other ↦ (k, get-insert_ne target profile key s.master_keys other ∙ present)
  ]

  insert_key-IsBounded :
      (target : Text) (key : Key)
      → IsBounded (record s { master_keys = insert target key s.master_keys })
  insert_key-IsBounded target key = record {
    active = λ q h. insert-IsUnlocked target key q (v.active q h);
    loaded = λ q w h. insert-IsUnlocked target key q (v.loaded q w h);
  }

  pub promote-IsBounded :
      (world : World) (meta : VaultMetadata) (target : Text) (p : PartialUnlock)
      → IsBounded (promote world meta target p s)
  unfolding promote
  promote-IsBounded world meta target p = record {
    active = λ q h. insert-IsUnlocked target _ q (v.active q h);
    loaded = λ q w h. insert-IsUnlocked target _ q (v.loaded q w h);
  }

  pub lock_one-IsBounded : (target : Text) → IsBounded (lock_one target s)
  lock_one-IsBounded target = record {
    active = λ q h.
        let (key, present) = v.active q (has-remove_name q target s.active_profiles h) in
        (key, get-remove_ne target q s.master_keys (λ e. gone q e h) ∙ present);
    loaded = λ q w h.
        let (ne, old) = (get-remove_iff target q s.vaults w).0 h in
        let (key, present) = v.loaded q w old in
        (key, get-remove_ne target q s.master_keys ne ∙ present);
  }
    where
      differ : (a : Bool) → a ≡ false → a ≡ true → ⊥
      differ a e h = cc

      gone : (q : Text) → target ≡ q → has q (remove_name target s.active_profiles) ≡ true → ⊥
      gone q same h =
          differ _ (has-remove_name_self target s.active_profiles)
            (ap (λ i. has i (remove_name target s.active_profiles)) same ∙ h)

pub lock_all-IsBounded : (s : VaultState) → IsBounded (lock_all s)
unfolding get
lock_all-IsBounded s = record { active = λ q h. cc; loaded = λ q w h. cc }

pub keep_key-IsBounded :
    (target : Text) (key : Key) (o : Option (Map Text Text)) (s : VaultState)
    → IsBounded s
    → IsBounded (keep_key target (key, o) s)
unfolding keep_key
keep_key-IsBounded target key none s v = insert_key-IsBounded s v target key
keep_key-IsBounded target key (some store) s v =
    put_vault-IsBounded (record s { master_keys = insert target key s.master_keys })
      (insert_key-IsBounded s v target key) target _ (key, get-insert target key s.master_keys)
