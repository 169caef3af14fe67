-- ===== src/Secrets/Daemon/Opening.antt =====
-- daemon-secrets/src/vault.rs: opening, authorising and closing vaults.
use open_sesame.Prelude.{not, Option, none, some, ◌++◌, if◌then◌else◌}
use open_sesame.Prelude.Text.{Text, codes}
use open_sesame.Prelude.Maps.{Map, list_eq, get, insert, remove}
use open_sesame.Secrets.Jit.{new}
use open_sesame.Secrets.Unlock.{Key}
use open_sesame.Secrets.Daemon.{
  Outcome, ok, err, Vault, World, VaultState, has, insert_name, remove_name,
}

abbrev not_active_error : Text → Text
not_active_error profile =
    codes "secrets error: profile '" ++ (profile ++ codes "' is not active — access denied")

abbrev not_unlocked_error : Text → Text
not_unlocked_error profile =
    codes "secrets error: profile '"
    ++ (profile ++ (codes "' is not unlocked — run: sesame unlock --profile " ++ profile))

abbrev pub opened : Text → Outcome (Map Text Text) → VaultState → Outcome Vault × VaultState
opened profile (err e) s = (err e, s)
opened profile (ok store) s =
    let vault : Vault = record { store = store; jit = new s.ttl } in
    (ok vault, record s { vaults = insert profile vault s.vaults })

abbrev pub get_or_open : World → Text → Key → Option Vault → VaultState → Outcome Vault × VaultState
get_or_open world profile master_key (some vault) s = (ok vault, s)
get_or_open world profile master_key none s =
    opened profile (world.open_store profile (world.derive_vault_key master_key profile)) s

abbrev pub vault_with_key : World → Text → Option Key → VaultState → Outcome Vault × VaultState
vault_with_key world profile none s = (err (not_unlocked_error profile), s)
vault_with_key world profile (some master_key) s =
    get_or_open world profile master_key (get s.vaults profile) s

unfoldable pub vault_for : World → Text → VaultState → Outcome Vault × VaultState
vault_for world profile s =
    if not (has profile s.active_profiles)
    then (err (not_active_error profile), s)
    else vault_with_key world profile (get s.master_keys profile) s

unfoldable pub activate_profile : Text → VaultState → VaultState
activate_profile profile s = record s { active_profiles = insert_name profile s.active_profiles }

unfoldable pub deactivate_profile : Text → VaultState → VaultState
deactivate_profile profile s = record s {
  active_profiles = remove_name profile s.active_profiles;
  vaults = remove profile s.vaults;
}

-- The vault of a profile after it was used.
abbrev pub put_vault : Text → Vault → VaultState → VaultState
put_vault profile vault s = record s { vaults = insert profile vault s.vaults }
