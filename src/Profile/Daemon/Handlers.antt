-- ===== src/Profile/Daemon/Handlers.antt =====
-- daemon-profile/src/dispatch.rs: what the profile daemon does with a message.
use open_sesame.Prelude.{
  ℕ, ◌+◌, ◌%◌, ◌^◌, Bool, true, false, not, Option, none, some, List, [], ◌∷◌, map, ◌==◌,
  if◌then◌else◌,
}
use open_sesame.Prelude.Text.{Text, codes, text_eq}
use open_sesame.Prelude.Maps.{Map, list_eq, get, insert}
use open_sesame.Types.{SecurityLevel}
use open_sesame.Ipc.Registry.{DaemonIdentity, Pubkey, revoke_by_name, register_with_generation}
use open_sesame.Secrets.Daemon.{
  Daemon, SecretOperationAudit, Event, secrets_state_response, secrets_state_request, has,
  insert_name, remove_name,
}
use open_sesame.Profile.Daemon.{
  ProfileDaemon, System, Effect, logged, announced, Call, Delivery, not_sent, unanswered, garbled,
  answered, Done, activate, deactivate, rpc_as, confirmed_rpc, secret_operation_audited,
  key_revoked, key_rotation_pending,
}
use open_sesame.Profile.Daemon.Rotation.{known_daemons, Keys, rotate_keys_phase1}

pub data ProfileRequest : Type 0 where
  daemon_started : Option Text → ℕ → ProfileRequest
  status_request profile_list key_rotation_request no_action : ProfileRequest
  activate_profile deactivate_profile : Text → ℕ → ProfileRequest
  set_default_profile : Text → ProfileRequest
  unlock_announced : Bool → Text → ProfileRequest
  lock_announced : Bool → List Text → ProfileRequest
  operation_audited : SecretOperationAudit → ProfileRequest

-- The ids of profiles are left out.
pub record ProfileSummary : Type 0 where
  pub name : Text
  pub is_active : Bool
  pub is_default : Bool

-- The uptimes, which are always 0, are left out.
pub record StatusResponse : Type 0 where
  pub active_profiles : List Text
  pub default_profile : Text
  pub locked : Bool
  pub lock_state : Map Text Bool

pub data Reply : Type 0 where
  status_response : StatusResponse → Reply
  profile_list_response : List ProfileSummary → Reply
  activate_response deactivate_response set_default_response key_rotation_response : Bool → Reply

pub record Outcome : Type 0 where
  pub system : System
  pub effects : List Effect
  pub reply : Option Reply

abbrev pub leave : System → List Effect → Option Reply → Outcome
leave s effects reply = record { system = s; effects = effects; reply = reply }

abbrev with_profile : System → ProfileDaemon → System
with_profile s p = record s { profile = p }

-- Shadow state: fail closed, and as the secrets daemon has it.
abbrev fail_closed : ProfileDaemon → ProfileDaemon
fail_closed p = record p { locked = true; active_profiles = [] }

abbrev warmed : Event → ProfileDaemon → ProfileDaemon
warmed (secrets_state_response locked active_profiles lock_state) p = record p {
  locked = locked;
  active_profiles = active_profiles;
}
warmed _ p = p

abbrev reconciled : Delivery → Option Event → ProfileDaemon → ProfileDaemon
reconciled garbled response p = p
reconciled answered (some event) p = warmed event p
reconciled answered none p = fail_closed p
reconciled unanswered response p = fail_closed p
reconciled not_sent response p = fail_closed p

unfoldable pub reconcile_secrets_state : Call → System → System
unfolding rpc_as
reconcile_secrets_state call s =
    let (response, secrets) = rpc_as none call secrets_state_request s.secrets in
    record { profile = reconciled call.delivery response s.profile; secrets = secrets }

abbrev shadow_status : ProfileDaemon → StatusResponse
shadow_status p = record {
  active_profiles = p.active_profiles;
  default_profile = p.default_profile_name;
  locked = p.locked;
  lock_state = [];
}

abbrev status_of : Option Event → ProfileDaemon → StatusResponse
status_of (some (secrets_state_response locked active_profiles lock_state)) p = record {
  active_profiles = active_profiles;
  default_profile = p.default_profile_name;
  locked = locked;
  lock_state = lock_state;
}
status_of _ p = shadow_status p

abbrev warmed_by : Option Event → ProfileDaemon → ProfileDaemon
warmed_by none p = p
warmed_by (some event) p = warmed event p

abbrev answer_status : Option Event × Daemon → ProfileDaemon → Outcome
answer_status (response, secrets) p =
    leave (record { profile = warmed_by response p; secrets = secrets }) []
      (some (status_response (status_of response p)))

abbrev pub after_activate : Text → System → Done → Outcome
after_activate name s (done, secrets, effects) =
    if done
    then leave
        (record {
          profile = record s.profile {
            active_profiles = insert_name name s.profile.active_profiles;
          };
          secrets = secrets;
        })
        effects (some (activate_response true))
    else leave (record s { secrets = secrets }) effects (some (activate_response false))

-- A failed deactivation is followed by a reconciliation.
abbrev after_deactivate : Call → Text → System → Done → Outcome
after_deactivate again name s (done, secrets, effects) =
    if done
    then leave
        (record {
          profile = record s.profile {
            active_profiles = remove_name name s.profile.active_profiles;
          };
          secrets = secrets;
        })
        effects (some (deactivate_response true))
    else leave (reconcile_secrets_state again (record s { secrets = secrets })) effects
        (some (deactivate_response false))

abbrev remove_all : List Text → List Text → List Text
remove_all [] active = active
remove_all (name ∷ names) active = remove_all names (remove_name name active)

abbrev lock_shadow : List Text → ProfileDaemon → ProfileDaemon
lock_shadow [] p = fail_closed p
lock_shadow (name ∷ names) p = record p {
  active_profiles = remove_all (name ∷ names) p.active_profiles;
}

abbrev pub announce_lock : Bool → List Text → ProfileDaemon → ProfileDaemon
announce_lock false profiles p = p
announce_lock true profiles p = lock_shadow profiles p

abbrev announce_unlock : Bool → ProfileDaemon → ProfileDaemon
announce_unlock false p = p
announce_unlock true p = record p { locked = false }

-- `DaemonTracker::track`: whether the daemon has started again.
abbrev pub differs : Option ℕ → ℕ → Bool
differs none new_id = false
differs (some old_id) new_id = not (old_id == new_id)

abbrev track : Text → ℕ → Map Text ℕ → Bool × Map Text ℕ
track name new_id known = (differs (get known name) new_id, insert name new_id known)

abbrev reset_lock_state : Text → ProfileDaemon → ProfileDaemon
reset_lock_state name p = if text_eq name (codes "daemon-secrets") then fail_closed p else p

abbrev level_of : Text → Map Text SecurityLevel → Option SecurityLevel
level_of name daemons = get daemons name

-- A `u64`, which wraps in a release build.
abbrev next_generation : Option DaemonIdentity → ℕ
next_generation none = 0
next_generation (some id) = (id.generation + 1) % 2 ^ 64

abbrev replace_key :
    Text → Option SecurityLevel → Option Pubkey → ProfileDaemon → ProfileDaemon × List Effect
replace_key name none key p = (p, [])
replace_key name (some level) none p = (p, [])
replace_key name (some level) (some key) p =
    let (old, registry) = revoke_by_name name p.registry in
    let generation = next_generation old in
    (
      record p { registry = register_with_generation name key level generation registry },
      logged (key_revoked name generation) ∷ announced (key_rotation_pending name key) ∷ [],
    )

abbrev after_track : Keys → Text → Bool × Map Text ℕ → ProfileDaemon → ProfileDaemon × List Effect
after_track keys name (restarted, known) p =
    if restarted
    then replace_key name (level_of name known_daemons) (keys name)
        (reset_lock_state name (record p { known = known }))
    else (record p { known = known }, [])

abbrev start_daemon : Keys → Option Text → ℕ → ProfileDaemon → ProfileDaemon × List Effect
start_daemon keys none announced_id p = (p, [])
start_daemon keys (some name) announced_id p =
    after_track keys name (track name announced_id p.known) p

abbrev answer_rotation : System → Bool × ProfileDaemon × List Effect → Outcome
answer_rotation s (done, p, effects) =
    leave (with_profile s p) effects (some (key_rotation_response done))

abbrev summary : ProfileDaemon → Text → ProfileSummary
summary p name = record {
  name = name;
  is_active = has name p.active_profiles;
  is_default = text_eq name p.default_profile_name;
}

-- The configured names, the keys that can be made, the call, and a second one for a reconciliation.
unfoldable pub handle_bus_message :
    List Text → Keys → Call → Call → ProfileRequest → System → Outcome
unfolding activate deactivate reconcile_secrets_state revoke_by_name register_with_generation
    rotate_keys_phase1
handle_bus_message names keys call again (daemon_started name announced_id) s =
    let (p, effects) = start_daemon keys name announced_id s.profile in
    leave (with_profile s p) effects none
handle_bus_message names keys call again status_request s =
    answer_status (confirmed_rpc call secrets_state_request s.secrets) s.profile
handle_bus_message names keys call again profile_list s =
    leave s [] (some (profile_list_response (map (summary s.profile) names)))
handle_bus_message names keys call again (activate_profile name target) s =
    if not (has name names)
    then leave s [] (some (activate_response false))
    else after_activate name s (activate call target name s.secrets)
handle_bus_message names keys call again (deactivate_profile name target) s =
    if not (has name names)
    then leave s [] (some (deactivate_response false))
    else if not (has name s.profile.active_profiles)
    then leave s [] (some (deactivate_response false))
    else after_deactivate again name s (deactivate call target name s.secrets)
handle_bus_message names keys call again (set_default_profile name) s =
    if not (has name names)
    then leave s [] (some (set_default_response false))
    else leave (with_profile s (record s.profile { default_profile_name = name })) []
        (some (set_default_response true))
handle_bus_message names keys call again (unlock_announced success profile) s =
    leave (with_profile s (announce_unlock success s.profile)) [] none
handle_bus_message names keys call again (lock_announced success profiles) s =
    leave (with_profile s (announce_lock success profiles s.profile)) [] none
handle_bus_message names keys call again (operation_audited audit) s =
    leave s (logged (secret_operation_audited audit) ∷ []) none
handle_bus_message names keys call again key_rotation_request s =
    answer_rotation s (rotate_keys_phase1 keys s.profile)
handle_bus_message names keys call again no_action s = leave s [] none
