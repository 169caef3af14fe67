-- ===== src/Secrets/Daemon/Crud.antt =====
-- daemon-secrets/src/crud.rs: the operations on secrets, and the profiles that are active. Built
-- without the feature `ipc-field-encryption`, which is off by default.
use open_sesame.Prelude.{
  ℕ, Bool, true, false, not, Option, none, some, List, [], ◌∷◌, map, if◌then◌else◌, is_empty,
}
use open_sesame.Prelude.Text.{Text, codes, text_eq}
use open_sesame.Prelude.Maps.{Map, list_eq, get, insert, remove}
use open_sesame.Secrets.Acl.{check_secret_list_access}
use open_sesame.Secrets.Jit.{SecretsStore, resolve, flush}
use open_sesame.Secrets.Daemon.{
  Outcome, ok, err, Vault, World, VaultState, Daemon, MessageContext, SecretDenialReason, locked,
  profile_not_active, access_denied, rate_limited, not_found, vault_error, Event,
  secret_get_response, secret_set_response, secret_delete_response, secret_list_response,
  profile_activate_response, profile_deactivate_response, Message, Sent, responded, Handled, has,
  remove_name,
}
use open_sesame.Secrets.Daemon.Opening.{vault_for, activate_profile, deactivate_profile, put_vault}
use open_sesame.Secrets.Daemon.Gates.{gate, check_rate, emit_audit_event, deny, Denied}

abbrev pub with_state : Daemon → VaultState → Daemon
with_state d s = record d { vault_state = s }

-- A request that was answered early.
abbrev pub refused : Daemon → List Sent → Handled
refused d sent = record { after = d; sent = sent; event = none }

abbrev pub answered : Daemon → List Sent → Event → Handled
answered d sent event = record { after = d; sent = sent; event = some event }

abbrev deny_get : Text → SecretDenialReason → Event
deny_get key reason = secret_get_response key [] (some reason)

abbrev deny_set : SecretDenialReason → Event
deny_set reason = secret_set_response false (some reason)

abbrev deny_delete : SecretDenialReason → Event
deny_delete reason = secret_delete_response false (some reason)

-- `SecretsStore::get` on an open store, at any time.
abbrev pub store_get : Option Text → Map Text Text → SecretsStore
store_get none store time key = get store key
store_get (some e) store time key = none

abbrev pub got : Message → Text → Text → Daemon → Vault → Option Text → Handled
got msg profile key d vault none =
    answered d (emit_audit_event (codes "get") profile (some key) msg (codes "not-found") ∷ [])
      (secret_get_response key [] (some not_found))
got msg profile key d vault (some secret) =
    answered d (emit_audit_event (codes "get") profile (some key) msg (codes "success") ∷ [])
      (secret_get_response key secret none)

abbrev pub get_from : World → Message → Text → Text → Daemon → Outcome Vault × VaultState → Handled
get_from world msg profile key d (err e, s) =
    answered (with_state d s)
      (emit_audit_event (codes "get") profile (some key) msg (codes "vault-error") ∷ [])
      (secret_get_response key [] (some (vault_error e)))
get_from world msg profile key d (ok vault, s) =
    let (value, jit) =
      resolve (store_get world.store_error vault.store) key world.instants vault.jit in
    got msg profile key (with_state d (put_vault profile (record vault { jit = jit }) s)) vault
      value

abbrev pub get_passed : World → Message → Text → Text → Option Denied × Daemon → Handled
get_passed world msg profile key (some denied, d) =
    refused d (deny (codes "get") profile (some key) msg (deny_get key) denied)
get_passed world msg profile key (none, d) =
    get_from world msg profile key d (vault_for world profile d.vault_state)

unfoldable pub handle_secret_get : World → MessageContext → Message → Text → Text → Daemon → Handled
handle_secret_get world ctx msg profile key d =
    get_passed world msg profile key (gate world ctx msg profile key d)

abbrev outcome_of : Option SecretDenialReason → Text
outcome_of none = codes "success"
outcome_of (some _) = codes "failed"

abbrev is_success : Option SecretDenialReason → Bool
is_success none = true
is_success (some _) = false

abbrev pub written :
    Text
    → (Bool → Option SecretDenialReason → Event)
    → Message
    → Text
    → Text
    → Option SecretDenialReason
    → Daemon
    → Handled
written action response msg profile key denial d =
    answered d (emit_audit_event action profile (some key) msg (outcome_of denial) ∷ [])
      (response (is_success denial) denial)

-- The store after a write that the disk takes, and the cache flushed; or the error.
abbrev pub write_vault :
    Option Text → Text → Map Text Text → Vault → VaultState → Option SecretDenialReason × VaultState
write_vault none profile store vault s =
    (none, put_vault profile (record { store = store; jit = flush vault.jit }) s)
write_vault (some e) profile store vault s = (some (vault_error e), s)

abbrev pub set_in :
    World → Text → Text → Text → Outcome Vault × VaultState → Option SecretDenialReason × VaultState
set_in world profile key value (err e, s) = (some (vault_error e), s)
set_in world profile key value (ok vault, s) =
    write_vault world.store_error profile (insert key value vault.store) vault s

abbrev pub set_passed : World → Message → Text → Text → Text → Option Denied × Daemon → Handled
set_passed world msg profile key value (some denied, d) =
    refused d (deny (codes "set") profile (some key) msg deny_set denied)
set_passed world msg profile key value (none, d) =
    let (denial, s) = set_in world profile key value (vault_for world profile d.vault_state) in
    written (codes "set") secret_set_response msg profile key denial (with_state d s)

unfoldable pub handle_secret_set :
    World → MessageContext → Message → Text → Text → Text → Daemon → Handled
handle_secret_set world ctx msg profile key value d =
    set_passed world msg profile key value (gate world ctx msg profile key d)

-- `SecretsStore::delete`, which fails on a key that is not there.
abbrev missing_error : Text
missing_error = codes "secrets error: key not found"

abbrev pub delete_found :
    World → Text → Text → Vault → Option Text → VaultState → Option SecretDenialReason × VaultState
delete_found world profile key vault none s = (some (vault_error missing_error), s)
delete_found world profile key vault (some value) s =
    write_vault world.store_error profile (remove key vault.store) vault s

abbrev pub delete_in :
    World → Text → Text → Outcome Vault × VaultState → Option SecretDenialReason × VaultState
delete_in world profile key (err e, s) = (some (vault_error e), s)
delete_in world profile key (ok vault, s) =
    delete_found world profile key vault (get vault.store key) s

abbrev pub delete_passed : World → Message → Text → Text → Option Denied × Daemon → Handled
delete_passed world msg profile key (some denied, d) =
    refused d (deny (codes "delete") profile (some key) msg deny_delete denied)
delete_passed world msg profile key (none, d) =
    let (denial, s) = delete_in world profile key (vault_for world profile d.vault_state) in
    written (codes "delete") secret_delete_response msg profile key denial (with_state d s)

unfoldable pub handle_secret_delete :
    World → MessageContext → Message → Text → Text → Daemon → Handled
handle_secret_delete world ctx msg profile key d =
    delete_passed world msg profile key (gate world ctx msg profile key d)

-- `list_keys().await.unwrap_or_default()`.
abbrev pub list_keys : Option Text → Map Text Text → List Text
list_keys none store = map (λ entry. entry.0) store
list_keys (some e) store = []

abbrev pub list_outcome : List Text → Text
list_outcome keys = if is_empty keys then codes "empty" else codes "success"

abbrev pub list_from : World → Message → Text → Daemon → Outcome Vault × VaultState → Handled
list_from world msg profile d (err e, s) =
    answered (with_state d s)
      (emit_audit_event (codes "list") profile none msg (codes "failed") ∷ [])
      (secret_list_response [] (some (vault_error e)))
list_from world msg profile d (ok vault, s) =
    let keys = list_keys world.store_error vault.store in
    answered (with_state d s)
      (emit_audit_event (codes "list") profile none msg (list_outcome keys) ∷ [])
      (secret_list_response keys none)

abbrev deny_list : SecretDenialReason → Event
deny_list reason = secret_list_response [] (some reason)

abbrev pub list_refused : Message → Text → Denied → Daemon → Handled
list_refused msg profile denied d =
    refused d (deny (codes "list") profile none msg deny_list denied)

abbrev pub list_after_rate : World → MessageContext → Message → Text → Bool → Daemon → Handled
list_after_rate world ctx msg profile allowed d =
    if not allowed
    then list_refused msg profile (rate_limited, codes "rate-limited") d
    else if not (check_secret_list_access ctx.config profile msg.verified_sender_name)
    then list_refused msg profile (access_denied, codes "denied-acl") d
    else list_from world msg profile d (vault_for world profile d.vault_state)

unfoldable pub handle_secret_list : World → MessageContext → Message → Text → Daemon → Handled
handle_secret_list world ctx msg profile d =
    if is_empty d.vault_state.master_keys
    then list_refused msg profile (locked, codes "denied-locked") d
    else if not (has profile d.vault_state.active_profiles)
    then list_refused msg profile (profile_not_active, codes "denied-profile-not-active") d
    else (let (allowed, limiters) =
          check_rate ctx.governor world.now msg.verified_sender_name d.limiters in
        list_after_rate world ctx msg profile allowed (record d { limiters = limiters }))

abbrev pub is_from : Text → Option Text → Bool
is_from name none = false
is_from name (some sender) = text_eq sender name

abbrev pub ignored : Daemon → Handled
ignored d = record { after = d; sent = []; event = none }

-- An activation whose vault cannot be opened is taken back.
abbrev pub activated : Text → Daemon → Outcome Vault × VaultState → Handled
activated profile d (ok vault, s) = answered (with_state d s) [] (profile_activate_response true)
activated profile d (err e, s) =
    answered (with_state d (record s { active_profiles = remove_name profile s.active_profiles }))
      [] (profile_activate_response false)

abbrev pub activate_unlocked : World → Text → Option (List ℕ) → Daemon → Handled
activate_unlocked world profile none d =
    refused d (responded (profile_activate_response false) ∷ [])
activate_unlocked world profile (some key) d =
    activated profile d (vault_for world profile (activate_profile profile d.vault_state))

unfoldable pub handle_profile_activate : World → Message → Text → Daemon → Handled
handle_profile_activate world msg profile d =
    if not (is_from (codes "daemon-profile") msg.verified_sender_name)
    then ignored d
    else activate_unlocked world profile (get d.vault_state.master_keys profile) d

unfoldable pub handle_profile_deactivate : Message → Text → Daemon → Handled
handle_profile_deactivate msg profile d =
    if not (is_from (codes "daemon-profile") msg.verified_sender_name)
    then ignored d
    else answered (with_state d (deactivate_profile profile d.vault_state)) []
        (profile_deactivate_response true)
