-- ===== src/Secrets/Daemon/Bypass.antt =====
-- What a policy of several factors does not stop, and what is not broadcast.
use open_sesame.Prelude.{
  ◌≡◌, refl, sym, ap, subst, inl, inr, true, Bool-cases, Option, none, some, [], ◌∷◌, ◌++◌, All,
}
use open_sesame.Prelude.Text.{Text}
use open_sesame.Prelude.Maps.{Map, list_eq, get, get-insert}
use open_sesame.Secrets.Unlock.Factor.{AuthFactorId}
use open_sesame.Secrets.Unlock.{
  Key, VaultMetadata, PartialUnlock, contains, is_complete, is_expired, record_factor,
}
use open_sesame.Secrets.Daemon.{
  Outcome, ok, err, World, Daemon, Handled, Event, unlock_response, published, responded,
}
use open_sesame.Secrets.Daemon.Unlocking.{
  verify, verified, unlocked, keep_key, ssh_unlock_target, handle_ssh_unlock, handle_factor_submit,
  submit_target, submit_loaded, submit_enrolled, submit_to, recorded, fails_verification,
}
use open_sesame.Secrets.Daemon.Dispatch.{post_dispatch}

module _ (world : World) (key : Key) (profile : Text) (d : Daemon) where
  -- The profile is unlocked with the key, and the lock state is broadcast.
  abbrev pub IsUnlockedBy : Handled → Type 0
  IsUnlockedBy h =
      (get h.after.vault_state.master_keys profile ≡ some key)
      × (post_dispatch h.event
          ≡ published (unlock_response true profile)
            ∷ responded (unlock_response true profile)
            ∷ [])

  keep_key-get :
      (store : Option (Map Text Text))
      → get (keep_key profile (key, store) d.vault_state).master_keys profile ≡ some key
  unfolding keep_key
  keep_key-get none = get-insert profile key d.vault_state.master_keys
  keep_key-get (some store) = get-insert profile key d.vault_state.master_keys

  abbrev Opens : Type 0
  Opens =
      world.vault_exists profile ≡ true
      → (store : Map Text Text) × (world.open_store profile (world.derive_vault_key key profile)
          ≡ ok store)

  verify-ok :
      Opens → (store : Option (Map Text Text)) × (verify world profile key ≡ ok (key, store))
  verify-ok opens = elim (Bool-cases (world.vault_exists profile)) [
    | inl there ↦
        let (store, opened) = opens there in (some store, rw there (ap (verified key) opened))
    | inr missing ↦ (none, rw missing refl)
  ]

  -- An SSH request unlocks a locked profile with a key that opens its vault, or with any key if there is
  -- no vault yet. The profile's metadata is not asked for, so that this does not depend on the policy.
  pub handle_ssh_unlock-IsUnlockedBy :
      get d.vault_state.master_keys profile ≡ none
      → Opens
      → IsUnlockedBy (handle_ssh_unlock world key profile d)
  unfolding handle_ssh_unlock
  handle_ssh_unlock-IsUnlockedBy locked opens =
      let (store, right) = verify-ok opens in
      subst (λ o. IsUnlockedBy (ssh_unlock_target world key profile o d)) (sym locked)
        (subst (λ r. IsUnlockedBy (unlocked profile d r)) (sym right) (keep_key-get store, refl))

-- What a handler sends, with the dispatch after it, is for the requester alone.
abbrev pub IsQuiet : Handled → Type 0
IsQuiet h = All (λ s. (e : Event) × (s ≡ responded e)) (h.sent ++ post_dispatch h.event)

module _ (world : World) (factor : AuthFactorId) (key : Key) (target : Text) (d : Daemon) where
  recorded-IsQuiet :
      (meta : VaultMetadata) (p : PartialUnlock) → IsQuiet (recorded world meta target p d)
  recorded-IsQuiet meta p = elim (Bool-cases (is_complete p)) [
    | inl complete ↦ rw complete ((_, refl), tt)
    | inr waiting ↦ rw waiting ((_, refl), tt)
  ]

  submit_to-IsQuiet :
      (meta : VaultMetadata) (p : PartialUnlock)
      → IsQuiet (submit_to world meta factor key target p d)
  submit_to-IsQuiet meta p = elim (Bool-cases (is_expired world.now p)) [
    | inl late ↦ rw late ((_, refl), tt)
    | inr in_time ↦ rw in_time (recorded-IsQuiet meta (record_factor meta factor key p))
  ]

  submit_enrolled-IsQuiet :
      (meta : VaultMetadata) → IsQuiet (submit_enrolled world meta factor key target d)
  submit_enrolled-IsQuiet meta = elim (Bool-cases (contains meta.enrolled_factors factor)) [
    | inr other ↦ rw other ((_, refl), tt)
    | inl enrolled ↦ elim (Bool-cases (fails_verification world meta target key)) [
      | inl fails ↦ rw (enrolled, fails) ((_, refl), tt)
      | inr passes ↦ rw (enrolled, passes) (submit_to-IsQuiet meta _)
    ]
  ]

  -- The submission of a factor, also the one that unlocks the profile, is answered and not broadcast.
  handle_factor_submit-IsQuiet : IsQuiet (handle_factor_submit world factor key target d)
  unfolding handle_factor_submit
  handle_factor_submit-IsQuiet = by_key (get d.vault_state.master_keys target)
    where
      by_meta : (o : Outcome VaultMetadata) → IsQuiet (submit_loaded world o factor key target d)
      by_meta (err e) = ((_, refl), tt)
      by_meta (ok meta) = submit_enrolled-IsQuiet meta

      by_key : (o : Option Key) → IsQuiet (submit_target world factor key target o d)
      by_key (some k) = ((_, refl), tt)
      by_key none = by_meta (world.load_meta target)
