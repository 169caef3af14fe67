-- ===== src/Profile/Daemon.antt =====
-- daemon-profile/src: the profile daemon, which keeps a shadow of the secrets daemon's state. Here its
-- state, its messages, and its calls of the secrets daemon (activation.rs).
pub mod Handlers
pub mod Rotation
pub mod Agreement
pub mod Failure
pub mod Grace
use open_sesame.Prelude.{
  ℕ, Bool, true, false, Option, none, some, List, [], ◌∷◌, ◌++◌, ◌==◌, if◌then◌else◌,
}
use open_sesame.Prelude.Text.{Text, codes}
use open_sesame.Prelude.Maps.{Map, list_eq, get, insert}
use open_sesame.Ipc.Registry.{ClearanceRegistry, Pubkey}
use open_sesame.Secrets.Daemon.{
  World, Daemon, MessageContext, SecretOperationAudit, Event, Request, Message, Sent, published,
  responded, profile_activate, profile_deactivate, secrets_state_request, profile_activate_response,
  profile_deactivate_response,
}
use open_sesame.Secrets.Daemon.Dispatch.{handle_message}

-- The baseline of a rotation: the generation and the key of each daemon when it began.
abbrev pub RotationBaseline : Type 0
RotationBaseline = Map Text (ℕ × Pubkey)

pub record ProfileDaemon : Type 0 where
  pub active_profiles : List Text
  pub default_profile_name : Text
  pub locked : Bool
  pub known : Map Text ℕ
  pub registry : ClearanceRegistry
  pub baseline : Option RotationBaseline

-- core-profile/src/lib.rs, the actions that the daemon logs.
pub data AuditAction : Type 0 where
  activation_logged deactivation_logged : ℕ → ℕ → AuditAction
  activation_failure_logged : ℕ → AuditAction
  key_rotation_started key_rotation_completed key_revoked : Text → ℕ → AuditAction
  secret_operation_audited : SecretOperationAudit → AuditAction

-- What it tells all daemons.
pub data Broadcast : Type 0 where
  profile_activation_begun profile_activation_failed profile_deactivation_begun : ℕ → Broadcast
  profile_activated profile_deactivated : ℕ → ℕ → Broadcast
  key_rotation_pending : Text → Pubkey → Broadcast
  key_rotation_complete : Text → Broadcast

pub data Effect : Type 0 where
  logged : AuditAction → Effect
  announced : Broadcast → Effect

-- What becomes of a call: the secrets daemon is not there, or its answer does not come in time, or
-- another answer or none that can be read comes in its place, or it is answered.
pub data Delivery : Type 0 where
  not_sent unanswered garbled answered : Delivery

-- The two daemons.
pub record System : Type 0 where
  pub profile : ProfileDaemon
  pub secrets : Daemon

-- The conditions of a call: its delivery, what the secrets daemon meets, and the time it takes.
pub record Call : Type 0 where
  pub delivery : Delivery
  pub world : World
  pub context : MessageContext
  pub sender : ℕ
  pub duration_ms : ℕ

abbrev pub response_in : List Sent → Option Event
response_in [] = none
response_in (published event ∷ sent) = response_in sent
response_in (responded event ∷ sent) = some event

abbrev result_of : Delivery → Option Event → Option Event
result_of answered response = response
result_of _ response = none

abbrev is_sent : Delivery → Bool
is_sent not_sent = false
is_sent _ = true

-- A call with the name that the message is stamped with; `none` is an error.
unfoldable pub rpc_as : Option Text → Call → Request → Daemon → Option Event × Daemon
unfolding handle_message
rpc_as name call request secrets =
    let message : Message = record {
      sender = call.sender;
      verified_sender_name = name;
      payload = request;
    } in
    let (after, sent) = handle_message call.world call.context message secrets in
    if is_sent call.delivery
    then (result_of call.delivery (response_in sent), after)
    else (none, secrets)

-- The daemon stamps its own name.
unfoldable pub confirmed_rpc : Call → Request → Daemon → Option Event × Daemon
unfolding rpc_as
confirmed_rpc call request secrets = rpc_as (some (codes "daemon-profile")) call request secrets

pub data CompletedStep : Type 0 where
  activation_begun_emitted secrets_vault_opened secrets_jit_flushed secrets_vault_closed
        activation_completed_emitted :
      CompletedStep

abbrev pub undo : Call → Text → CompletedStep → Daemon → Daemon
undo call profile_name secrets_vault_opened secrets =
    (confirmed_rpc call (profile_deactivate profile_name) secrets).1
undo call profile_name secrets_jit_flushed secrets =
    (confirmed_rpc call (profile_activate profile_name) secrets).1
undo call profile_name secrets_vault_closed secrets =
    (confirmed_rpc call (profile_activate profile_name) secrets).1
undo call profile_name activation_begun_emitted secrets = secrets
undo call profile_name activation_completed_emitted secrets = secrets

-- The steps in reverse order.
abbrev undo_all : Call → Text → List CompletedStep → Daemon → Daemon
undo_all call profile_name [] secrets = secrets
undo_all call profile_name (step ∷ completed) secrets =
    undo call profile_name step (undo_all call profile_name completed secrets)

abbrev rollback : Call → ℕ → Text → List CompletedStep → Daemon → Daemon × List Effect
rollback call target profile_name completed secrets = (
  undo_all call profile_name completed secrets,
  logged (activation_failure_logged target) ∷ announced (profile_activation_failed target) ∷ [],
)

-- What an activation or a deactivation leaves: whether it was done, the secrets daemon, and its effects.
abbrev pub Done : Type 0
Done = Bool × Daemon × List Effect

abbrev pub failed : Effect → Daemon × List Effect → Done
failed begun (secrets, effects) = (false, secrets, begun ∷ effects)

abbrev pub is_activated : Option Event → Bool
is_activated (some (profile_activate_response success)) = success
is_activated _ = false

abbrev pub activate_confirmed : Call → ℕ → Text → Option Event × Daemon → Done
activate_confirmed call target profile_name (response, secrets) =
    if is_activated response
    then (
      true,
      secrets,
      announced (profile_activation_begun target)
          ∷ announced (profile_activated target call.duration_ms)
          ∷ logged (activation_logged target call.duration_ms)
          ∷ [],
    )
    else failed (announced (profile_activation_begun target))
        (rollback call target profile_name (activation_begun_emitted ∷ []) secrets)

unfoldable pub activate : Call → ℕ → Text → Daemon → Done
unfolding confirmed_rpc
activate call target profile_name secrets =
    activate_confirmed call target profile_name
      (confirmed_rpc call (profile_activate profile_name) secrets)

abbrev is_deactivated : Option Event → Bool
is_deactivated (some (profile_deactivate_response success)) = success
is_deactivated _ = false

-- A call that fails is left to the caller; an answer that tells of no success is rolled back.
abbrev not_deactivated : Call → ℕ → Text → Option Event → Daemon → Daemon × List Effect
not_deactivated call target profile_name none secrets = (secrets, [])
not_deactivated call target profile_name (some response) secrets =
    rollback call target profile_name (activation_begun_emitted ∷ []) secrets

abbrev deactivate_confirmed : Call → ℕ → Text → Option Event × Daemon → Done
deactivate_confirmed call target profile_name (response, secrets) =
    if is_deactivated response
    then (
      true,
      secrets,
      announced (profile_deactivation_begun target)
          ∷ announced (profile_deactivated target call.duration_ms)
          ∷ logged (deactivation_logged target call.duration_ms)
          ∷ [],
    )
    else failed (announced (profile_deactivation_begun target))
        (not_deactivated call target profile_name response secrets)

unfoldable pub deactivate : Call → ℕ → Text → Daemon → Done
unfolding confirmed_rpc
deactivate call target profile_name secrets =
    deactivate_confirmed call target profile_name
      (confirmed_rpc call (profile_deactivate profile_name) secrets)
