-- ===== src/Tests/Daemon.antt =====
-- Tests of the secrets daemon and instances of its theorems.
use open_sesame.Prelude.{
  ◌-◌, ◌≡◌, ◌≢◌, ◌↔◌, refl, inr, true, false, some, none, [], ◌∷◌, ltb, ◌==◌, if◌then◌else◌,
}
use open_sesame.Prelude.Text.{Text, codes, text_eq}
use open_sesame.Prelude.Maps.{Map, list_eq, get, insert, remove}
use open_sesame.Secrets.Acl.{check_secret_access, check_keys, any_acl_active}
use open_sesame.Secrets.Jit.{resolve, flush, fetch, cached_value, new}
use open_sesame.Secrets.Unlock.Factor.{AuthFactorId, password, fido2, ssh_agent, factor_eq}
use open_sesame.Secrets.Unlock.{
  Key, VaultMetadata, policy, requirement, to_set, record_factor, fresh_partial, is_complete,
  is_expired,
}
use open_sesame.Secrets.Daemon.{
  Outcome, ok, err, World, Daemon, MessageContext, Message, Request, start, unlock_request,
  factor_submit, profile_activate, other_event, secret_get_response, secret_set_response,
  secret_delete_response, access_denied,
}
use open_sesame.Secrets.Daemon.Opening.{vault_for, activate_profile}
use open_sesame.Secrets.Daemon.Gates.{gate, check_rate, validate_secret_key, emit_audit_event}
use open_sesame.Secrets.Daemon.Crud.{
  handle_secret_get, handle_secret_set, handle_secret_delete, handle_secret_list,
  handle_profile_activate,
}
use open_sesame.Secrets.Daemon.Unlocking.{
  unlock_profile, keep_key, handle_unlock_request, handle_ssh_unlock, handle_factor_submit,
  handle_lock_request, promote, promoted_key,
}
use open_sesame.Secrets.Daemon.Dispatch.{handle, handle_message}
use open_sesame.Secrets.Daemon.History.{Reaches, started, handled, Reaches-IsBounded}
use open_sesame.Secrets.Daemon.Bounded.{IsBounded, IsUnlocked}
use open_sesame.Secrets.Daemon.Release.{
  Refuses, not_granted, IsRefusal, Passes, Holds, gate-IsRefusal, handle_secret_get-released,
}
use open_sesame.Secrets.Daemon.Written.{set-get}
use open_sesame.Secrets.Daemon.Answered.{IsAudited, handle_secret-IsAudited}
use open_sesame.Secrets.Daemon.Locking.{IsLocked, handle_lock_request-IsLocked}
use open_sesame.Secrets.Daemon.Submitted.{ReachesWith}
use open_sesame.Secrets.Daemon.Completed.{HasAll, handle_factor_submit-HasAll}
use open_sesame.Secrets.Daemon.Bypass.{IsUnlockedBy, handle_ssh_unlock-IsUnlockedBy}
use open_sesame.Types.ProfileName.{validate, bad_start}
use open_sesame.Types.ProfileName.Valid.{validate_iff, IsProfileName, IsPathSafe}

abbrev work : Text
work = codes "work"

abbrev key : Text
key = codes "token"

abbrev master : Key
master = 7 ∷ []

-- A vault that one key opens, and a policy of two factors.
abbrev meta : VaultMetadata
meta = record {
  enrolled_factors = password ∷ fido2 ∷ ssh_agent ∷ [];
  auth_policy = policy (record { required = password ∷ fido2 ∷ []; additional_required = 0 });
}

abbrev opened_by : Key → Outcome (Map Text Text)
opened_by [] = err (codes "no key")
opened_by (n ∷ _) = if n == 7 then ok ((key, codes "v1") ∷ []) else err (codes "wrong key")

abbrev first_key : Map AuthFactorId Key → Key
first_key [] = []
first_key ((f, k) ∷ _) = k

abbrev world : World
world = record {
  now = 1000;
  instants = record { checked = 1; answered = 2; kept = 3 };
  vault_exists = λ _. true;
  open_store = λ _ k. opened_by k;
  store_error = none;
  load_meta = λ _. ok meta;
  keyring_retrieve = λ _ _. none;
  derive_master_key = λ _ p. ok p;
  derive_vault_key = λ k _. k;
  derive_key = λ _ k. k;
  any_value = first_key;
}

abbrev ctx : MessageContext
ctx = record {
  config = record {
    profiles =
        (work, record { secrets = record { access = (codes "snippets", codes "other" ∷ []) ∷ [] } })
        ∷ [];
  };
  default_profile = work;
  governor = record { direct = 4; check = λ n _. (ltb 0 n, n - 1) };
}

abbrev message : Text → Request → Message
message sender request = record {
  sender = 1;
  verified_sender_name = some sender;
  payload = request;
}

abbrev launcher : Request → Message
launcher = message (codes "launcher")

-- The daemon once the profile is unlocked and active.
abbrev once_unlocked : Daemon
once_unlocked =
    (handle_message world ctx (launcher (unlock_request master (some work))) (start 60)).0

abbrev activation : Message
activation = message (codes "daemon-profile") (profile_activate work)

abbrev ready : Daemon
ready = (handle_message world ctx activation once_unlocked).0

ready-Reaches : Reaches ready
ready-Reaches = handled world ctx _ (handled world ctx _ (started 60))

delivered :
    (handle_secret_get world ctx (launcher other_event) work key ready).event
    ≡ some (secret_get_response key (codes "v1") none)
unfolding start handle_message handle handle_unlock_request unlock_profile keep_key
    handle_profile_activate activate_profile vault_for handle_secret_get gate check_rate
    check_secret_access check_keys any_acl_active validate_secret_key emit_audit_event resolve
    cached_value fetch new text_eq get insert remove
delivered = refl

Reaches-IsBounded_example : IsBounded ready.vault_state
Reaches-IsBounded_example = Reaches-IsBounded ready-Reaches

-- The snippets may not read the key.
abbrev snippets : Message
snippets = message (codes "snippets") other_event

denied : Refuses world ctx snippets work key ready access_denied (codes "denied-acl")
unfolding start handle_message handle handle_unlock_request unlock_profile keep_key
    handle_profile_activate activate_profile vault_for check_rate check_secret_access check_keys
    any_acl_active text_eq get insert
denied = not_granted refl refl refl refl

gate-IsRefusal_example :
    IsRefusal world ctx snippets work key ready
      (codes "get")
      (codes "denied-acl")
      (secret_get_response key [] (some access_denied))
      (handle_secret_get world ctx snippets work key ready)
    × IsRefusal world ctx snippets work key ready
        (codes "set")
        (codes "denied-acl")
        (secret_set_response false (some access_denied))
        (handle_secret_set world ctx snippets work key (codes "v2") ready)
    × IsRefusal world ctx snippets work key ready
        (codes "delete")
        (codes "denied-acl")
        (secret_delete_response false (some access_denied))
        (handle_secret_delete world ctx snippets work key ready)
gate-IsRefusal_example =
    gate-IsRefusal world ctx snippets work key ready (codes "v2") (codes "denied-acl") access_denied
      denied

handle_secret_get-released_example :
    Passes world ctx (launcher other_event) work key ready
    × IsUnlocked ready.vault_state work
    × Holds world ctx
        (launcher other_event)
        work
        key
        ready
        (vault_for world work ready.vault_state).0
        (codes "v1")
handle_secret_get-released_example =
    handle_secret_get-released world ctx (launcher other_event) work key ready (codes "v1")
      ready-Reaches delivered

abbrev after_set : Daemon
after_set = (handle_secret_set world ctx (launcher other_event) work key (codes "v2") ready).after

set_done :
    (handle_secret_set world ctx (launcher other_event) work key (codes "v2") ready).event
    ≡ some (secret_set_response true none)
unfolding start handle_message handle handle_unlock_request unlock_profile keep_key
    handle_profile_activate activate_profile vault_for handle_secret_set gate check_rate
    check_secret_access check_keys any_acl_active validate_secret_key emit_audit_event flush new
    text_eq get insert remove
set_done = refl

gate_open : (gate world ctx (launcher other_event) work key after_set).0 ≡ none
unfolding start handle_message handle handle_unlock_request unlock_profile keep_key
    handle_profile_activate activate_profile vault_for handle_secret_set gate check_rate
    check_secret_access check_keys any_acl_active validate_secret_key emit_audit_event flush new
    text_eq get insert remove
gate_open = refl

set-get_example :
    (handle_secret_get world ctx (launcher other_event) work key after_set).event
    ≡ some (secret_get_response key (codes "v2") none)
set-get_example =
    set-get work key world world ctx ctx (launcher other_event) (launcher other_event) (codes "v2")
      ready set_done gate_open refl

handle_secret-IsAudited_example :
    IsAudited
      (codes "get")
      work
      (some key)
      snippets
      (handle_secret_get world ctx snippets work key ready)
    × IsAudited
        (codes "set")
        work
        (some key)
        snippets
        (handle_secret_set world ctx snippets work key (codes "v2") ready)
    × IsAudited
        (codes "delete")
        work
        (some key)
        snippets
        (handle_secret_delete world ctx snippets work key ready)
    × IsAudited (codes "list") work none snippets (handle_secret_list world ctx snippets work ready)
handle_secret-IsAudited_example =
    handle_secret-IsAudited world ctx snippets work key (codes "v2") ready

handle_lock_request-IsLocked_example :
    IsLocked (handle_lock_request (some work) ready).after work
    × ((q : Text)
        → some work ≡ some work
        → work ≢ q
        → (get (handle_lock_request (some work) ready).after.vault_state.master_keys q
            ≡ get ready.vault_state.master_keys q)
          × (get (handle_lock_request (some work) ready).after.vault_state.vaults q
              ≡ get ready.vault_state.vaults q))
handle_lock_request-IsLocked_example =
    handle_lock_request-IsLocked (some work) ready work (inr refl)

-- The first of two factors, and then the second.
abbrev half : Daemon
half = (handle_message world ctx (launcher (factor_submit password master work)) (start 60)).0

half-ReachesWith : ReachesWith meta work half
half-ReachesWith = ReachesWith.handled world ctx _ refl (ReachesWith.started 60)

still_locked : get half.vault_state.master_keys work ≡ none
unfolding start handle_message handle handle_factor_submit requirement to_set record_factor
    fresh_partial is_complete is_expired promote promoted_key text_eq get insert remove
still_locked = refl

now_unlocked :
    get (handle_factor_submit world fido2 master work half).after.vault_state.master_keys work
    ≡ some master
unfolding start handle_message handle handle_factor_submit requirement to_set record_factor
    fresh_partial is_complete is_expired promote promoted_key text_eq get insert remove
now_unlocked = refl

handle_factor_submit-HasAll_example :
    HasAll world meta fido2 master work half still_locked
      (get half.vault_state.partial_unlocks work)
      master
handle_factor_submit-HasAll_example =
    handle_factor_submit-HasAll world meta fido2 master work half still_locked master refl
      half-ReachesWith refl now_unlocked

-- The same profile, with the SSH key alone.
fresh_locked : get (start 60).vault_state.master_keys work ≡ none
unfolding start get
fresh_locked = refl

handle_ssh_unlock-IsUnlockedBy_example :
    IsUnlockedBy world master work (start 60) (handle_ssh_unlock world master work (start 60))
handle_ssh_unlock-IsUnlockedBy_example =
    handle_ssh_unlock-IsUnlockedBy world master work (start 60) fresh_locked
      (λ _. ((key, codes "v1") ∷ [], refl))

validate_iff_example :
    ((validate (codes "my-work_2") ≡ none) ↔ IsProfileName (codes "my-work_2"))
    × (validate (codes "my-work_2") ≡ none → IsPathSafe (codes "my-work_2"))
validate_iff_example = validate_iff (codes "my-work_2")

dotted_name : validate (codes "../etc") ≡ some bad_start
unfolding validate text_eq
dotted_name = refl
