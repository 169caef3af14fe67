-- ===== src/Secrets/Daemon/Locking.antt =====
-- What a lock leaves behind.
use open_sesame.Prelude.{◌≡◌, ◌≢◌, refl, ◌⊎◌, inl, inr, false, Option, none, some, arith}
use open_sesame.Prelude.Text.{Text}
use open_sesame.Prelude.Maps.{list_eq, get, get-remove, get-remove_ne}
use open_sesame.Secrets.Daemon.{World, Daemon, MessageContext, Message, has}
use open_sesame.Secrets.Daemon.Gates.{gate}
use open_sesame.Secrets.Daemon.Unlocking.{handle_lock_request}
use open_sesame.Secrets.Daemon.Bounded.{has-remove_name_self}

-- Nothing of a profile is left, and every request for its secrets is refused by a gate.
pub record IsLocked (d : Daemon) (profile : Text) : Type 0 where
  pub no_key : get d.vault_state.master_keys profile ≡ none
  pub no_vault : get d.vault_state.vaults profile ≡ none
  pub no_partial : get d.vault_state.partial_unlocks profile ≡ none
  pub inactive : has profile d.vault_state.active_profiles ≡ false
  pub refused :
      (world : World) (ctx : MessageContext) (msg : Message) (key : Text)
      → (gate world ctx msg profile key d).0 ≢ none

inactive-refused :
    (world : World) (ctx : MessageContext) (msg : Message) (profile key : Text) (d : Daemon)
    → has profile d.vault_state.active_profiles ≡ false
    → (gate world ctx msg profile key d).0 ≢ none
unfolding gate
inactive-refused world ctx msg profile key d off h = ground arith

-- A lock of a profile, or of all, leaves it with no key, no open vault and no partial unlock, and not
-- active, so that a gate refuses every request for its secrets until it is active again; and a lock of
-- one profile leaves the keys and the vaults of the others.
pub handle_lock_request-IsLocked :
    (o : Option Text) (d : Daemon) (profile : Text)
    → (o ≡ none) ⊎ (o ≡ some profile)
    → IsLocked (handle_lock_request o d).after profile
      × ((q : Text)
          → o ≡ some profile
          → profile ≢ q
          → (get (handle_lock_request o d).after.vault_state.master_keys q
              ≡ get d.vault_state.master_keys q)
            × (get (handle_lock_request o d).after.vault_state.vaults q
                ≡ get d.vault_state.vaults q))
unfolding handle_lock_request get
handle_lock_request-IsLocked none d profile which = (
  record {
    no_key = refl;
    no_vault = refl;
    no_partial = refl;
    inactive = refl;
    refused = λ world ctx msg key.
        inactive-refused world ctx msg profile key (handle_lock_request none d).after refl;
  },
  λ q h. cc,
)
handle_lock_request-IsLocked (some target) d profile (inl all) = cc
handle_lock_request-IsLocked (some target) d profile (inr one) =
    let same : target ≡ profile = cc in
    rw same (
      record {
        no_key = get-remove profile d.vault_state.master_keys;
        no_vault = get-remove profile d.vault_state.vaults;
        no_partial = get-remove profile d.vault_state.partial_unlocks;
        inactive = has-remove_name_self profile d.vault_state.active_profiles;
        refused = λ world ctx msg key.
            inactive-refused world ctx msg profile key (handle_lock_request (some profile) d).after
              (has-remove_name_self profile d.vault_state.active_profiles);
      },
      λ q _ ne. (
        get-remove_ne profile q d.vault_state.master_keys ne,
        get-remove_ne profile q d.vault_state.vaults ne,
      ),
    )
