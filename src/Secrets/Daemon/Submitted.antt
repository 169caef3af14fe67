-- ===== src/Secrets/Daemon/Submitted.antt =====
-- The partial unlocks over any history of messages, and what completes them.
use open_sesame.Prelude.{
  ℕ, ◌≡◌, refl, sym, ap, ◌∙◌, subst, inl, inr, Bool, true, not, Bool-cases, Option, none, some, [],
  arith,
}
use open_sesame.Prelude.Text.{Text}
use open_sesame.Prelude.Maps.{list_eq, get, insert, remove, get-insert_iff, get-remove_iff}
use open_sesame.Prelude.Update.{filter, retain_values, get-retain_values}
use open_sesame.Secrets.Unlock.Factor.{AuthFactorId}
use open_sesame.Secrets.Unlock.Required.{needs_all}
use open_sesame.Secrets.Unlock.{
  Key, VaultMetadata, PartialUnlock, contains, is_complete, is_expired, fresh_partial,
  record_factor,
}
use open_sesame.Secrets.Daemon.{
  Outcome, ok, err, World, Daemon, MessageContext, Message, Request, start, daemon_started,
  status_request, secrets_state_request, other_event, unlock_request, ssh_unlock_request,
  factor_submit, vault_auth_query, lock_request, secret_get, secret_delete, secret_set, secret_list,
  profile_activate, profile_deactivate,
}
use open_sesame.Secrets.Daemon.Crud.{with_state}
use open_sesame.Secrets.Daemon.Unlocking.{
  promote, recorded, submit_to, submit_enrolled, submit_loaded, submit_target, handle_factor_submit,
  handle_vault_auth_query, handle_lock_request, fails_verification, partial_or, sweep,
}
use open_sesame.Secrets.Daemon.Dispatch.{handle, handle_message, handle_secrets_state_request}
use open_sesame.Secrets.Daemon.Partials.{
  Partials, partials, get-partials, set-partials, delete-partials, list-partials, activate-partials,
  deactivate-partials, unlock-partials, ssh-partials,
}
use open_sesame.Secrets.Daemon.Factors.{IsTracked, fresh_partial-IsTracked, record_factor-IsTracked}

module _ (meta : VaultMetadata) (target : Text) where
  -- The states that messages and sweeps lead to, while the profile's metadata stays as it is.
  pub data ReachesWith : Daemon → Type 0 where
    started : (ttl : ℕ) → ReachesWith (start ttl)
    handled :
        {d : Daemon} (world : World) (ctx : MessageContext) (msg : Message)
        → world.load_meta target ≡ ok meta
        → ReachesWith d
        → ReachesWith (handle_message world ctx msg d).0
    swept :
        {d : Daemon} (now : ℕ)
        → ReachesWith d
        → ReachesWith (with_state d (sweep now d.vault_state))

module _ (meta : VaultMetadata) (target : Text) (needs : needs_all meta.auth_policy ≡ true) where
  -- The partial unlock of the profile, if there is one, is tracked.
  abbrev Tracks : Partials → Type 0
  Tracks m = (p : PartialUnlock) → get m target ≡ some p → IsTracked meta p

  remove-Tracks : (q : Text) (m : Partials) → Tracks m → Tracks (remove q m)
  remove-Tracks q m t p h = t p ((get-remove_iff q target m p).0 h).1

  insert-Tracks :
      (q : Text) (p : PartialUnlock) (m : Partials)
      → (q ≡ target → IsTracked meta p)
      → Tracks m
      → Tracks (insert q p m)
  insert-Tracks q p m new t r h = elim ((get-insert_iff q target p m r).0 h) [
    | inl (same, e) ↦ subst (IsTracked meta) e (new same)
    | inr (_, old) ↦ t r old
  ]

  retain-Tracks :
      (keep : PartialUnlock → Bool) (m : Partials) → Tracks m → Tracks (retain_values keep m)
  retain-Tracks keep m t p h = t p (kept (get m target) (sym (get-retain_values keep m target) ∙ h))
    where
      kept : (o : Option PartialUnlock) → filter keep o ≡ some p → o ≡ some p
      kept none e = cc
      kept (some r) e = ground arith

  module _ (world : World) (d : Daemon) (t : Tracks d.vault_state.partial_unlocks) where
    -- The profile's metadata, and what its partial unlock is.
    abbrev Concerns : Text → VaultMetadata → PartialUnlock → Type 0
    Concerns q m p = q ≡ target → (m ≡ meta) × IsTracked meta p

    recorded-Tracks :
        (m : VaultMetadata) (q : Text) (p : PartialUnlock)
        → (q ≡ target → IsTracked meta p)
        → Tracks (partials (recorded world m q p d))
    unfolding promote
    recorded-Tracks m q p new = elim (Bool-cases (is_complete p)) [
      | inl complete ↦ rw complete (remove-Tracks q d.vault_state.partial_unlocks t)
      | inr waiting ↦ rw waiting (insert-Tracks q p d.vault_state.partial_unlocks new t)
    ]

    submit_to-Tracks :
        (m : VaultMetadata) (f : AuthFactorId) (key : Key) (q : Text) (p : PartialUnlock)
        → Concerns q m p
        → Tracks (partials (submit_to world m f key q p d))
    submit_to-Tracks m f key q p about = elim (Bool-cases (is_expired world.now p)) [
      | inl late ↦ rw late (remove-Tracks q d.vault_state.partial_unlocks t)
      | inr in_time ↦ rw in_time (
          recorded-Tracks m q (record_factor m f key p) (λ e.
            let (same, tracked) = about e in
            subst (λ i. IsTracked meta (record_factor i f key p)) (sym same)
              (record_factor-IsTracked meta f key p needs tracked)))
    ]

    partial_or-Concerns :
        (m : VaultMetadata) (q : Text)
        → (q ≡ target → m ≡ meta)
        → Concerns q m
            (partial_or (fresh_partial m world.now) (get d.vault_state.partial_unlocks q))
    partial_or-Concerns m q about e = (about e, either (get d.vault_state.partial_unlocks q) refl)
      where
        either :
            (o : Option PartialUnlock)
            → get d.vault_state.partial_unlocks q ≡ o
            → IsTracked meta (partial_or (fresh_partial m world.now) o)
        either none h =
            subst (λ i. IsTracked meta (fresh_partial i world.now)) (sym (about e))
              (fresh_partial-IsTracked meta world.now)
        either (some p) h = t p (sym (ap (get d.vault_state.partial_unlocks) e) ∙ h)

    submit_enrolled-Tracks :
        (m : VaultMetadata) (f : AuthFactorId) (key : Key) (q : Text)
        → (q ≡ target → m ≡ meta)
        → Tracks (partials (submit_enrolled world m f key q d))
    submit_enrolled-Tracks m f key q about = elim (Bool-cases (contains m.enrolled_factors f)) [
      | inr other ↦ rw other t
      | inl enrolled ↦ elim (Bool-cases (fails_verification world m q key)) [
        | inl fails ↦ rw (enrolled, fails) t
        | inr passes ↦
            rw (enrolled, passes) (submit_to-Tracks m f key q _ (partial_or-Concerns m q about))
      ]
    ]

    submit_loaded-Tracks :
        (o : Outcome VaultMetadata) (f : AuthFactorId) (key : Key) (q : Text)
        → (q ≡ target → o ≡ ok meta)
        → Tracks (partials (submit_loaded world o f key q d))
    submit_loaded-Tracks (err e) f key q about = t
    submit_loaded-Tracks (ok m) f key q about =
        submit_enrolled-Tracks m f key q (λ e. inj (about e))
      where
        inj : ok m ≡ ok meta → m ≡ meta
        inj e = cc

    submit_target-Tracks :
        (f : AuthFactorId) (key : Key) (q : Text) (o : Option Key)
        → world.load_meta target ≡ ok meta
        → Tracks (partials (submit_target world f key q o d))
    submit_target-Tracks f key q (some k) stable = t
    submit_target-Tracks f key q none stable =
        submit_loaded-Tracks (world.load_meta q) f key q (λ e. ap world.load_meta e ∙ stable)

    lock-Tracks : (o : Option Text) → Tracks (partials (handle_lock_request o d))
    unfolding handle_lock_request get
    lock-Tracks none = λ p h. cc
    lock-Tracks (some q) = remove-Tracks q d.vault_state.partial_unlocks t

    kept-Tracks : (m : Partials) → m ≡ d.vault_state.partial_unlocks → Tracks m
    kept-Tracks m e = subst Tracks (sym e) t

    handle-Tracks :
        (ctx : MessageContext) (msg : Message) (r : Request)
        → world.load_meta target ≡ ok meta
        → Tracks (partials (handle world ctx msg r d))
    unfolding handle handle_factor_submit handle_vault_auth_query handle_secrets_state_request
    handle-Tracks ctx msg daemon_started stable = t
    handle-Tracks ctx msg status_request stable = t
    handle-Tracks ctx msg other_event stable = t
    handle-Tracks ctx msg secrets_state_request stable = t
    handle-Tracks ctx msg (vault_auth_query profile) stable = t
    handle-Tracks ctx msg (unlock_request password o) stable =
        kept-Tracks _ (unlock-partials world ctx msg [] [] d password o)
    handle-Tracks ctx msg (ssh_unlock_request key profile) stable =
        kept-Tracks _ (ssh-partials world ctx msg profile [] d key)
    handle-Tracks ctx msg (factor_submit f key profile) stable =
        submit_target-Tracks f key profile _ stable
    handle-Tracks ctx msg (lock_request o) stable = lock-Tracks o
    handle-Tracks ctx msg (secret_get profile key) stable =
        kept-Tracks _ (get-partials world ctx msg profile key d)
    handle-Tracks ctx msg (secret_delete profile key) stable =
        kept-Tracks _ (delete-partials world ctx msg profile key d)
    handle-Tracks ctx msg (secret_set profile key value) stable =
        kept-Tracks _ (set-partials world ctx msg profile key d value)
    handle-Tracks ctx msg (secret_list profile) stable =
        kept-Tracks _ (list-partials world ctx msg profile [] d)
    handle-Tracks ctx msg (profile_activate profile) stable =
        kept-Tracks _ (activate-partials world ctx msg profile [] d)
    handle-Tracks ctx msg (profile_deactivate profile) stable =
        kept-Tracks _ (deactivate-partials world ctx msg profile [] d)

  pub ReachesWith-Tracks :
      {d : Daemon} → ReachesWith meta target d → Tracks d.vault_state.partial_unlocks
  unfolding start handle_message sweep get
  ReachesWith-Tracks (started ttl) = λ p h. cc
  ReachesWith-Tracks (handled {d} world ctx msg stable r) =
      handle-Tracks world d (ReachesWith-Tracks r) ctx msg msg.payload stable
  ReachesWith-Tracks (swept {d} now r) =
      retain-Tracks (λ p. not (is_expired now p)) d.vault_state.partial_unlocks
        (ReachesWith-Tracks r)
