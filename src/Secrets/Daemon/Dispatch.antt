-- ===== src/Secrets/Daemon/Dispatch.antt =====
-- daemon-secrets/src/dispatch.rs: from a message to its handler and to what goes out.
use open_sesame.Prelude.{
  Bool, true, false, Option, none, some, List, [], ◌∷◌, ◌++◌, if◌then◌else◌, is_empty,
}
use open_sesame.Prelude.Text.{Text}
use open_sesame.Prelude.Maps.{Map, list_eq, get}
use open_sesame.Types.ProfileName.{validate}
use open_sesame.Secrets.Unlock.{Key}
use open_sesame.Secrets.Acl.{ProfileConfig}
use open_sesame.Secrets.Daemon.{
  World, Daemon, MessageContext, Event, secret_operation_audit, secret_get_response,
  secret_set_response, secret_delete_response, secret_list_response, already_unlocked,
  unlock_response, lock_response, factor_response, vault_auth_query_response,
  profile_activate_response, profile_deactivate_response, secrets_state_response, Request,
  daemon_started, status_request, secrets_state_request, other_event, unlock_request,
  ssh_unlock_request, factor_submit, vault_auth_query, lock_request, secret_get, secret_delete,
  secret_set, secret_list, profile_activate, profile_deactivate, Message, Sent, published,
  responded, Handled,
}
use open_sesame.Secrets.Daemon.Crud.{
  answered, ignored, handle_secret_get, handle_secret_set, handle_secret_delete, handle_secret_list,
  handle_profile_activate, handle_profile_deactivate,
}
use open_sesame.Secrets.Daemon.Unlocking.{
  handle_unlock_request, handle_ssh_unlock, handle_factor_submit, handle_vault_auth_query,
  handle_lock_request,
}

abbrev is_none {ℓ} : {A : Type ℓ} → Option A → Bool
is_none none = true
is_none (some _) = false

-- Which of the configured profiles are locked, those whose names are valid.
abbrev lock_state : Map Text Key → Map Text ProfileConfig → Map Text Bool
lock_state keys [] = []
lock_state keys ((name, config) ∷ profiles) =
    let rest = lock_state keys profiles in
    if is_none (validate name) then (name, is_none (get keys name)) ∷ rest else rest

unfoldable pub handle_secrets_state_request : MessageContext → Daemon → Handled
unfolding validate
handle_secrets_state_request ctx d = answered d [] (
    secrets_state_response (is_empty d.vault_state.master_keys) d.vault_state.active_profiles
      (lock_state d.vault_state.master_keys ctx.config.profiles))

unfoldable pub handle : World → MessageContext → Message → Request → Daemon → Handled
handle world ctx msg daemon_started d = ignored d
handle world ctx msg status_request d = ignored d
handle world ctx msg other_event d = ignored d
handle world ctx msg secrets_state_request d = handle_secrets_state_request ctx d
handle world ctx msg (unlock_request password profile) d =
    handle_unlock_request world ctx password profile d
handle world ctx msg (ssh_unlock_request master_key profile) d =
    handle_ssh_unlock world master_key profile d
handle world ctx msg (factor_submit factor key profile) d =
    handle_factor_submit world factor key profile d
handle world ctx msg (vault_auth_query profile) d = handle_vault_auth_query world profile d
handle world ctx msg (lock_request profile) d = handle_lock_request profile d
handle world ctx msg (secret_get profile key) d = handle_secret_get world ctx msg profile key d
handle world ctx msg (secret_delete profile key) d =
    handle_secret_delete world ctx msg profile key d
handle world ctx msg (secret_set profile key value) d =
    handle_secret_set world ctx msg profile key value d
handle world ctx msg (secret_list profile) d = handle_secret_list world ctx msg profile d
handle world ctx msg (profile_activate profile) d = handle_profile_activate world msg profile d
handle world ctx msg (profile_deactivate profile) d = handle_profile_deactivate msg profile d

-- The changes of the lock state that are broadcast.
abbrev broadcast_of : Event → List Sent
broadcast_of (unlock_response success profile) = published (unlock_response success profile) ∷ []
broadcast_of (lock_response success profiles) = published (lock_response success profiles) ∷ []
broadcast_of (secret_operation_audit _) = []
broadcast_of (secret_get_response _ _ _) = []
broadcast_of (secret_set_response _ _) = []
broadcast_of (secret_delete_response _ _) = []
broadcast_of (secret_list_response _ _) = []
broadcast_of (already_unlocked _) = []
broadcast_of (factor_response _) = []
broadcast_of (vault_auth_query_response _) = []
broadcast_of (profile_activate_response _) = []
broadcast_of (profile_deactivate_response _) = []
broadcast_of (secrets_state_response _ _ _) = []

abbrev pub post_dispatch : Option Event → List Sent
post_dispatch none = []
post_dispatch (some event) = broadcast_of event ++ responded event ∷ []

-- The daemon after a message, and all that it has sent.
unfoldable pub handle_message : World → MessageContext → Message → Daemon → Daemon × List Sent
unfolding handle
handle_message world ctx msg d =
    let handled = handle world ctx msg msg.payload d in
    (handled.after, handled.sent ++ post_dispatch handled.event)
