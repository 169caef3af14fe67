-- ===== src/Secrets/Daemon/History.antt =====
-- What holds of every state that the daemon can come to.
use open_sesame.Prelude.{
  ℕ, ◌≡◌, refl, sym, subst, inl, inr, Bool, true, false, Bool-cases, Option, none, some, is_empty,
}
use open_sesame.Prelude.Text.{Text, codes}
use open_sesame.Prelude.Maps.{Map, list_eq, get}
use open_sesame.Secrets.Acl.{check_secret_list_access}
use open_sesame.Secrets.Unlock.Factor.{AuthFactorId}
use open_sesame.Secrets.Unlock.{
  Key, VaultMetadata, PartialUnlock, is_complete, is_expired, record_factor, contains,
}
use open_sesame.Secrets.Daemon.{
  Outcome, ok, err, Vault, World, VaultState, Daemon, MessageContext, Message, Request, Handled,
  start, has, daemon_started, status_request, secrets_state_request, other_event, unlock_request,
  ssh_unlock_request, factor_submit, vault_auth_query, lock_request, secret_get, secret_delete,
  secret_set, secret_list, profile_activate, profile_deactivate,
}
use open_sesame.Secrets.Daemon.Opening.{vault_for, activate_profile}
use open_sesame.Secrets.Daemon.Gates.{gate, Denied}
use open_sesame.Secrets.Daemon.Crud.{
  got, get_from, get_passed, handle_secret_get, write_vault, set_in, set_passed, handle_secret_set,
  delete_found, delete_in, delete_passed, handle_secret_delete, list_from, list_after_rate,
  handle_secret_list, activated, activate_unlocked, handle_profile_activate,
  handle_profile_deactivate, is_from, with_state,
}
use open_sesame.Secrets.Daemon.Unlocking.{
  UnlockResult, unlocked, unlock_target, handle_unlock_request, ssh_unlock_target,
  handle_ssh_unlock, target_of, recorded, submit_to, submit_enrolled, submit_loaded, submit_target,
  handle_factor_submit, handle_vault_auth_query, handle_lock_request, fails_verification, sweep,
}
use open_sesame.Secrets.Daemon.Dispatch.{handle, handle_message, handle_secrets_state_request}
use open_sesame.Secrets.Daemon.Access.{vault_for-IsUnlocked, gate-state}
use open_sesame.Secrets.Daemon.Bounded.{
  IsUnlocked, IsBounded, put_vault-IsBounded, vault_for-IsBounded, activate_profile-IsBounded,
  remove_active-IsBounded, deactivate_profile-IsBounded, partial-IsBounded, promote-IsBounded,
  lock_one-IsBounded, lock_all-IsBounded, keep_key-IsBounded,
}

abbrev IsSafe : Handled → Type 0
IsSafe h = IsBounded h.after.vault_state

got-after :
    (msg : Message) (profile key : Text) (d : Daemon) (vault : Vault) (o : Option Text)
    → (got msg profile key d vault o).after ≡ d
got-after msg profile key d vault none = refl
got-after msg profile key d vault (some secret) = refl

-- What `vault_for` returns: a bounded state, and a vault only of an unlocked profile.
abbrev IsOpening : Text → Outcome Vault × VaultState → Type 0
IsOpening profile r = IsBounded r.1 × ((vault : Vault) → r.0 ≡ ok vault → IsUnlocked r.1 profile)

vault_for-IsOpening :
    (world : World) (profile : Text) (s : VaultState)
    → IsBounded s
    → IsOpening profile (vault_for world profile s)
vault_for-IsOpening world profile s v = (
  vault_for-IsBounded s v world profile,
  λ vault h. vault_for-IsUnlocked world profile s vault v h,
)

module _ (world : World) (msg : Message) (profile key : Text) (d : Daemon) where
  get_from-IsSafe :
      (r : Outcome Vault × VaultState)
      → IsOpening profile r
      → IsSafe (get_from world msg profile key d r)
  get_from-IsSafe (err e, s) (v, u) = v
  get_from-IsSafe (ok vault, s) (v, u) =
      subst (λ e. IsBounded e.vault_state) (sym (got-after msg profile key _ vault _))
        (put_vault-IsBounded s v profile _ (u vault refl))

  write_vault-IsBounded :
      (o : Option Text) (store : Map Text Text) (vault : Vault) (s : VaultState)
      → IsBounded s
      → IsUnlocked s profile
      → IsBounded (write_vault o profile store vault s).1
  write_vault-IsBounded none store vault s v u = put_vault-IsBounded s v profile _ u
  write_vault-IsBounded (some e) store vault s v u = v

  set_in-IsBounded :
      (value : Text) (r : Outcome Vault × VaultState)
      → IsOpening profile r
      → IsBounded (set_in world profile key value r).1
  set_in-IsBounded value (err e, s) (v, u) = v
  set_in-IsBounded value (ok vault, s) (v, u) =
      write_vault-IsBounded world.store_error _ vault s v (u vault refl)

  delete_found-IsBounded :
      (vault : Vault) (o : Option Text) (s : VaultState)
      → IsBounded s
      → IsUnlocked s profile
      → IsBounded (delete_found world profile key vault o s).1
  delete_found-IsBounded vault none s v u = v
  delete_found-IsBounded vault (some value) s v u =
      write_vault-IsBounded world.store_error _ vault s v u

  delete_in-IsBounded :
      (r : Outcome Vault × VaultState)
      → IsOpening profile r
      → IsBounded (delete_in world profile key r).1
  delete_in-IsBounded (err e, s) (v, u) = v
  delete_in-IsBounded (ok vault, s) (v, u) = delete_found-IsBounded vault _ s v (u vault refl)

  list_from-IsSafe :
      (r : Outcome Vault × VaultState) → IsBounded r.1 → IsSafe (list_from world msg profile d r)
  list_from-IsSafe (err e, s) v = v
  list_from-IsSafe (ok vault, s) v = v

module _ (world : World) (msg : Message) (profile key : Text) where
  get_passed-IsSafe :
      (r : Option Denied × Daemon)
      → IsBounded r.1.vault_state
      → IsSafe (get_passed world msg profile key r)
  get_passed-IsSafe (some denied, e) v = v
  get_passed-IsSafe (none, e) v =
      get_from-IsSafe world msg profile key e _ (vault_for-IsOpening world profile e.vault_state v)

  set_passed-IsSafe :
      (value : Text) (r : Option Denied × Daemon)
      → IsBounded r.1.vault_state
      → IsSafe (set_passed world msg profile key value r)
  set_passed-IsSafe value (some denied, e) v = v
  set_passed-IsSafe value (none, e) v =
      set_in-IsBounded world msg profile key e value _
        (vault_for-IsOpening world profile e.vault_state v)

  delete_passed-IsSafe :
      (r : Option Denied × Daemon)
      → IsBounded r.1.vault_state
      → IsSafe (delete_passed world msg profile key r)
  delete_passed-IsSafe (some denied, e) v = v
  delete_passed-IsSafe (none, e) v =
      delete_in-IsBounded world msg profile key e _
        (vault_for-IsOpening world profile e.vault_state v)

list_after_rate-IsSafe :
    (world : World) (ctx : MessageContext) (msg : Message) (profile : Text) (allowed : Bool)
    (d : Daemon)
    → IsBounded d.vault_state
    → IsSafe (list_after_rate world ctx msg profile allowed d)
list_after_rate-IsSafe world ctx msg profile false d v = v
list_after_rate-IsSafe world ctx msg profile true d v =
    elim (Bool-cases (check_secret_list_access ctx.config profile msg.verified_sender_name)) [
      | inl granted ↦ rw granted (
          list_from-IsSafe world msg profile profile d _
            (vault_for-IsBounded d.vault_state v world profile))
      | inr other ↦ rw other v
    ]

module _ (world : World) (ctx : MessageContext) (msg : Message) (d : Daemon)
    (v : IsBounded d.vault_state) where
  gated : (profile key : Text) → IsBounded (gate world ctx msg profile key d).1.vault_state
  gated profile key = subst IsBounded (sym (gate-state world ctx msg profile key d)) v

  handle_secret_list-IsSafe : (profile : Text) → IsSafe (handle_secret_list world ctx msg profile d)
  unfolding handle_secret_list
  handle_secret_list-IsSafe profile = elim (Bool-cases (is_empty d.vault_state.master_keys)) [
    | inl none_open ↦ rw none_open v
    | inr some_open ↦ elim (Bool-cases (has profile d.vault_state.active_profiles)) [
      | inr off ↦ rw (some_open, off) v
      | inl on ↦ rw (some_open, on) (list_after_rate-IsSafe world ctx msg profile _ _ v)
    ]
  ]

  activated-IsSafe :
      (profile : Text) (r : Outcome Vault × VaultState)
      → IsBounded r.1
      → IsSafe (activated profile d r)
  activated-IsSafe profile (ok vault, s) w = w
  activated-IsSafe profile (err e, s) w = remove_active-IsBounded s w profile

  activate_unlocked-IsSafe :
      (profile : Text) (o : Option Key)
      → get d.vault_state.master_keys profile ≡ o
      → IsSafe (activate_unlocked world profile o d)
  activate_unlocked-IsSafe profile none e = v
  activate_unlocked-IsSafe profile (some key) e = activated-IsSafe profile _ (
      vault_for-IsBounded (activate_profile profile d.vault_state)
        (activate_profile-IsBounded d.vault_state v profile (key, e)) world profile)

  handle_profile_activate-IsSafe :
      (profile : Text) → IsSafe (handle_profile_activate world msg profile d)
  unfolding handle_profile_activate
  handle_profile_activate-IsSafe profile =
      elim (Bool-cases (is_from (codes "daemon-profile") msg.verified_sender_name)) [
        | inl trusted ↦
            rw trusted
              (activate_unlocked-IsSafe profile (get d.vault_state.master_keys profile) refl)
        | inr other ↦ rw other v
      ]

  handle_profile_deactivate-IsSafe :
      (profile : Text) → IsSafe (handle_profile_deactivate msg profile d)
  unfolding handle_profile_deactivate
  handle_profile_deactivate-IsSafe profile =
      elim (Bool-cases (is_from (codes "daemon-profile") msg.verified_sender_name)) [
        | inl trusted ↦ rw trusted (deactivate_profile-IsBounded d.vault_state v profile)
        | inr other ↦ rw other v
      ]

  unlocked-IsSafe : (target : Text) (o : Outcome UnlockResult) → IsSafe (unlocked target d o)
  unlocked-IsSafe target (ok (key, store)) = keep_key-IsBounded target key store d.vault_state v
  unlocked-IsSafe target (err e) = v

  unlock_target-IsSafe :
      (password target : Text) (o : Option Key) → IsSafe (unlock_target world password target o d)
  unlock_target-IsSafe password target (some key) = v
  unlock_target-IsSafe password target none = unlocked-IsSafe target _

  ssh_unlock_target-IsSafe :
      (key : Key) (target : Text) (o : Option Key) → IsSafe (ssh_unlock_target world key target o d)
  ssh_unlock_target-IsSafe key target (some k) = v
  ssh_unlock_target-IsSafe key target none = unlocked-IsSafe target _

  recorded-IsSafe :
      (meta : VaultMetadata) (target : Text) (p : PartialUnlock)
      → IsSafe (recorded world meta target p d)
  recorded-IsSafe meta target p = elim (Bool-cases (is_complete p)) [
    | inl complete ↦ rw complete (promote-IsBounded d.vault_state v world meta target p)
    | inr waiting ↦ rw waiting (partial-IsBounded d.vault_state v _)
  ]

  submit_to-IsSafe :
      (meta : VaultMetadata) (factor : AuthFactorId) (key : Key) (target : Text) (p : PartialUnlock)
      → IsSafe (submit_to world meta factor key target p d)
  submit_to-IsSafe meta factor key target p = elim (Bool-cases (is_expired world.now p)) [
    | inl late ↦ rw late (partial-IsBounded d.vault_state v _)
    | inr in_time ↦ rw in_time (recorded-IsSafe meta target (record_factor meta factor key p))
  ]

  submit_enrolled-IsSafe :
      (meta : VaultMetadata) (factor : AuthFactorId) (key : Key) (target : Text)
      → IsSafe (submit_enrolled world meta factor key target d)
  submit_enrolled-IsSafe meta factor key target =
      elim (Bool-cases (contains meta.enrolled_factors factor)) [
        | inr other ↦ rw other v
        | inl enrolled ↦ elim (Bool-cases (fails_verification world meta target key)) [
          | inl fails ↦ rw (enrolled, fails) v
          | inr passes ↦ rw (enrolled, passes) (submit_to-IsSafe meta factor key target _)
        ]
      ]

  submit_loaded-IsSafe :
      (o : Outcome VaultMetadata) (factor : AuthFactorId) (key : Key) (target : Text)
      → IsSafe (submit_loaded world o factor key target d)
  submit_loaded-IsSafe (err e) factor key target = v
  submit_loaded-IsSafe (ok meta) factor key target = submit_enrolled-IsSafe meta factor key target

  submit_target-IsSafe :
      (factor : AuthFactorId) (key : Key) (target : Text) (o : Option Key)
      → IsSafe (submit_target world factor key target o d)
  submit_target-IsSafe factor key target (some k) = v
  submit_target-IsSafe factor key target none = submit_loaded-IsSafe _ factor key target

  handle_lock_request-IsSafe : (o : Option Text) → IsSafe (handle_lock_request o d)
  unfolding handle_lock_request
  handle_lock_request-IsSafe none = lock_all-IsBounded d.vault_state
  handle_lock_request-IsSafe (some target) = lock_one-IsBounded d.vault_state v target

  handle-IsSafe : (r : Request) → IsSafe (handle world ctx msg r d)
  unfolding handle handle_secret_get handle_secret_set handle_secret_delete handle_unlock_request
      handle_ssh_unlock handle_factor_submit handle_vault_auth_query handle_secrets_state_request
  handle-IsSafe daemon_started = v
  handle-IsSafe status_request = v
  handle-IsSafe other_event = v
  handle-IsSafe secrets_state_request = v
  handle-IsSafe (unlock_request password profile) =
      unlock_target-IsSafe password (target_of ctx profile) _
  handle-IsSafe (ssh_unlock_request key profile) = ssh_unlock_target-IsSafe key profile _
  handle-IsSafe (factor_submit factor key profile) = submit_target-IsSafe factor key profile _
  handle-IsSafe (vault_auth_query profile) = v
  handle-IsSafe (lock_request profile) = handle_lock_request-IsSafe profile
  handle-IsSafe (secret_get profile key) =
      get_passed-IsSafe world msg profile key _ (gated profile key)
  handle-IsSafe (secret_delete profile key) =
      delete_passed-IsSafe world msg profile key _ (gated profile key)
  handle-IsSafe (secret_set profile key value) =
      set_passed-IsSafe world msg profile key value _ (gated profile key)
  handle-IsSafe (secret_list profile) = handle_secret_list-IsSafe profile
  handle-IsSafe (profile_activate profile) = handle_profile_activate-IsSafe profile
  handle-IsSafe (profile_deactivate profile) = handle_profile_deactivate-IsSafe profile

-- The states that messages and sweeps lead to, whatever the world answers.
pub data Reaches : Daemon → Type 0 where
  started : (ttl : ℕ) → Reaches (start ttl)
  handled :
      {d : Daemon} (world : World) (ctx : MessageContext) (msg : Message)
      → Reaches d
      → Reaches (handle_message world ctx msg d).0
  swept : {d : Daemon} (now : ℕ) → Reaches d → Reaches (with_state d (sweep now d.vault_state))

-- In every state that the daemon comes to, a profile that is active, or whose vault is open, is
-- unlocked.
pub Reaches-IsBounded : {d : Daemon} → Reaches d → IsBounded d.vault_state
unfolding start handle_message sweep get
Reaches-IsBounded (started ttl) = record { active = λ q h. cc; loaded = λ q w h. cc }
Reaches-IsBounded (handled {d} world ctx msg r) =
    handle-IsSafe world ctx msg d (Reaches-IsBounded r) msg.payload
Reaches-IsBounded (swept {d} now r) = partial-IsBounded d.vault_state (Reaches-IsBounded r) _
