-- ===== src/Tests/ProfileDaemon.antt =====
-- Tests of the profile daemon with the secrets daemon, and instances of its theorems.
use open_sesame.Prelude.{◌-◌, ◌≡◌, refl, true, false, some, none, [], ◌∷◌, ltb, is_empty}
use open_sesame.Prelude.Text.{Text, codes, text_eq}
use open_sesame.Prelude.Maps.{Map, list_eq, get, insert, remove}
use open_sesame.Secrets.Unlock.Factor.{AuthFactorId, password}
use open_sesame.Secrets.Unlock.{Key, policy}
use open_sesame.Secrets.Daemon.{
  ok, World, Daemon, MessageContext, Message, start, unlock_request, profile_activate,
  lock_response, has,
}
use open_sesame.Secrets.Daemon.Opening.{vault_for, activate_profile}
use open_sesame.Secrets.Daemon.Crud.{handle_profile_activate}
use open_sesame.Secrets.Daemon.Unlocking.{
  unlock_profile, keep_key, handle_unlock_request, handle_lock_request,
}
use open_sesame.Secrets.Daemon.Dispatch.{handle, handle_message}
use open_sesame.Secrets.Daemon.History.{Reaches, started, handled}
use open_sesame.Profile.Daemon.{
  ProfileDaemon, System, Call, answered, rpc_as, confirmed_rpc, activate, is_activated,
}
use open_sesame.Profile.Daemon.Rotation.{Keys}
use open_sesame.Profile.Daemon.Handlers.{
  reconcile_secrets_state, handle_bus_message, activate_profile as activate_request,
  activate_response, lock_announced,
}
use open_sesame.Profile.Daemon.Agreement.{
  Agrees, reconcile_secrets_state-Agrees, IsActiveInBoth, activate_request-IsActiveInBoth,
}
use open_sesame.Profile.Daemon.Failure.{
  late, timely, Diverges, activate_request-Diverges, lock_announced-locked,
}

abbrev work : Text
work = codes "work"

abbrev master : Key
master = 7 ∷ []

abbrev first_key : Map AuthFactorId Key → Key
first_key [] = []
first_key ((f, k) ∷ _) = k

-- A vault that every key opens.
abbrev world : World
world = record {
  now = 1000;
  instants = record { checked = 1; answered = 2; kept = 3 };
  vault_exists = λ _. true;
  open_store = λ _ k. ok [];
  store_error = none;
  load_meta = λ _. ok (record {
    enrolled_factors = password ∷ [];
    auth_policy = policy (record { required = password ∷ []; additional_required = 0 });
  });
  keyring_retrieve = λ _ _. none;
  derive_master_key = λ _ p. ok p;
  derive_vault_key = λ k _. k;
  derive_key = λ _ k. k;
  any_value = first_key;
}

abbrev ctx : MessageContext
ctx = record {
  config = record { profiles = [] };
  default_profile = work;
  governor = record { direct = 4; check = λ n _. (ltb 0 n, n - 1) };
}

abbrev call : Call
call = record { delivery = answered; world = world; context = ctx; sender = 2; duration_ms = 5 }

abbrev unlocking : Message
unlocking = record {
  sender = 1;
  verified_sender_name = some (codes "launcher");
  payload = unlock_request master (some work);
}

-- Both daemons, once the profile is unlocked.
abbrev secrets : Daemon
secrets = (handle_message world ctx unlocking (start 60)).0

abbrev shadow : ProfileDaemon
shadow = record {
  active_profiles = [];
  default_profile_name = work;
  locked = false;
  known = [];
  registry = record { identities = []; pubkey_index = [] };
  baseline = none;
}

abbrev system : System
system = record { profile = shadow; secrets = secrets }

abbrev no_keys : Keys
no_keys name = none

secrets-Reaches : Reaches secrets
secrets-Reaches = handled world ctx _ (started 60)

reconcile_secrets_state-Agrees_example :
    ((reconcile_secrets_state call system).secrets ≡ secrets)
    × Agrees answered system (reconcile_secrets_state call system).profile
reconcile_secrets_state-Agrees_example = reconcile_secrets_state-Agrees call system

done :
    (handle_bus_message (work ∷ []) no_keys call call (activate_request work 3) system).reply
    ≡ some (activate_response true)
unfolding handle_bus_message activate confirmed_rpc rpc_as start handle_message handle
    handle_unlock_request unlock_profile keep_key handle_profile_activate activate_profile vault_for
    text_eq get insert remove
done = refl

activate_request-IsActiveInBoth_example :
    (has work (work ∷ []) ≡ true)
    × IsActiveInBoth work
        (handle_bus_message (work ∷ []) no_keys call call (activate_request work 3) system).system
activate_request-IsActiveInBoth_example =
    activate_request-IsActiveInBoth (work ∷ []) no_keys call call work 3 system secrets-Reaches done

configured : has work (work ∷ []) ≡ true
unfolding text_eq
configured = refl

in_time : is_activated (confirmed_rpc (timely call) (profile_activate work) secrets).0 ≡ true
unfolding confirmed_rpc rpc_as start handle_message handle handle_unlock_request unlock_profile
    keep_key handle_profile_activate activate_profile vault_for text_eq get insert remove
in_time = refl

activate_request-Diverges_example :
    Diverges work system
      (handle_bus_message (work ∷ []) no_keys (late call) call (activate_request work 3) system)
activate_request-Diverges_example =
    activate_request-Diverges (work ∷ []) no_keys call call work 3 system configured in_time

some_key : is_empty secrets.vault_state.master_keys ≡ false
unfolding start handle_message handle handle_unlock_request unlock_profile keep_key text_eq get
    insert
some_key = refl

announced : (handle_lock_request none secrets).event ≡ some (lock_response true (work ∷ []))
unfolding handle_lock_request start handle_message handle handle_unlock_request unlock_profile
    keep_key text_eq get insert
announced = refl

lock_announced-locked_example :
    ((handle_bus_message
        (work ∷ [])
        no_keys
        call
        call
        (lock_announced true (work ∷ []))
        (record system {
          secrets = (handle_lock_request none secrets).after;
        })).system.profile.locked
      ≡ false)
    × (is_empty (handle_lock_request none secrets).after.vault_state.master_keys ≡ true)
lock_announced-locked_example =
    lock_announced-locked (work ∷ []) (work ∷ []) no_keys call call system some_key announced
