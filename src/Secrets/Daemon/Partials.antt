-- ===== src/Secrets/Daemon/Partials.antt =====
-- The messages that leave the partial unlocks as they are.
use open_sesame.Prelude.{◌≡◌, ap, Option, arith}
use open_sesame.Prelude.Text.{Text}
use open_sesame.Prelude.Maps.{Map, list_eq}
use open_sesame.Secrets.Unlock.{Key, PartialUnlock}
use open_sesame.Secrets.Daemon.{World, VaultState, Daemon, MessageContext, Message, Handled}
use open_sesame.Secrets.Daemon.Opening.{vault_for, activate_profile, deactivate_profile}
use open_sesame.Secrets.Daemon.Gates.{gate}
use open_sesame.Secrets.Daemon.Crud.{
  handle_secret_get, handle_secret_set, handle_secret_delete, handle_secret_list,
  handle_profile_activate, handle_profile_deactivate,
}
use open_sesame.Secrets.Daemon.Unlocking.{handle_unlock_request, handle_ssh_unlock}
use open_sesame.Secrets.Daemon.Access.{gate-state}

abbrev pub Partials : Type 0
Partials = Map Text PartialUnlock

abbrev pub partials : Handled → Partials
partials h = h.after.vault_state.partial_unlocks

vault_for-partials :
    (world : World) (profile : Text) (s : VaultState)
    → (vault_for world profile s).1.partial_unlocks ≡ s.partial_unlocks
unfolding vault_for
vault_for-partials world profile s = ground arith

gate-partials :
    (world : World) (ctx : MessageContext) (msg : Message) (profile key : Text) (d : Daemon)
    → (gate world ctx msg profile key d).1.vault_state.partial_unlocks
      ≡ d.vault_state.partial_unlocks
gate-partials world ctx msg profile key d =
    ap (λ s. s.partial_unlocks) (gate-state world ctx msg profile key d)

module _ (world : World) (ctx : MessageContext) (msg : Message) (profile key : Text)
    (d : Daemon) where
  pub get-partials :
      partials (handle_secret_get world ctx msg profile key d) ≡ d.vault_state.partial_unlocks
  unfolding handle_secret_get
  get-partials = ground (
    arith,
    gate-partials world ctx msg profile key d,
    vault_for-partials world profile (gate world ctx msg profile key d).1.vault_state,
  )

  pub set-partials :
      (value : Text)
      → partials (handle_secret_set world ctx msg profile key value d)
        ≡ d.vault_state.partial_unlocks
  unfolding handle_secret_set
  set-partials value = ground (
    arith,
    gate-partials world ctx msg profile key d,
    vault_for-partials world profile (gate world ctx msg profile key d).1.vault_state,
  )

  pub delete-partials :
      partials (handle_secret_delete world ctx msg profile key d) ≡ d.vault_state.partial_unlocks
  unfolding handle_secret_delete
  delete-partials = ground (
    arith,
    gate-partials world ctx msg profile key d,
    vault_for-partials world profile (gate world ctx msg profile key d).1.vault_state,
  )

  pub list-partials :
      partials (handle_secret_list world ctx msg profile d) ≡ d.vault_state.partial_unlocks
  unfolding handle_secret_list
  list-partials = ground (arith, vault_for-partials world profile d.vault_state)

  pub activate-partials :
      partials (handle_profile_activate world msg profile d) ≡ d.vault_state.partial_unlocks
  unfolding handle_profile_activate activate_profile
  activate-partials =
      ground (arith, vault_for-partials world profile (activate_profile profile d.vault_state))

  pub deactivate-partials :
      partials (handle_profile_deactivate msg profile d) ≡ d.vault_state.partial_unlocks
  unfolding handle_profile_deactivate deactivate_profile
  deactivate-partials = ground arith

  pub unlock-partials :
      (password : Text) (o : Option Text)
      → partials (handle_unlock_request world ctx password o d) ≡ d.vault_state.partial_unlocks
  unfolding handle_unlock_request
  unlock-partials password o = ground arith

  pub ssh-partials :
      (k : Key) → partials (handle_ssh_unlock world k profile d) ≡ d.vault_state.partial_unlocks
  unfolding handle_ssh_unlock
  ssh-partials k = ground arith
