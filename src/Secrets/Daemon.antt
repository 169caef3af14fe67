-- ===== src/Secrets/Daemon.antt =====
-- daemon-secrets/src: the secrets daemon. Here its state (vault.rs), its messages, and what it asks
-- of the world.
pub mod Opening
pub mod Gates
pub mod Crud
pub mod Unlocking
pub mod Dispatch
pub mod Bounded
pub mod Access
pub mod History
pub mod Release
pub mod Written
pub mod Locking
pub mod Factors
pub mod Partials
pub mod Submitted
pub mod Completed
pub mod Bypass
pub mod Answered
use open_sesame.Prelude.{ℕ, Bool, not, Option, List, [], ◌∷◌, any, retain, if◌then◌else◌}
use open_sesame.Prelude.Text.{Text, text_eq}
use open_sesame.Prelude.Maps.{Map}
use open_sesame.Secrets.Acl.{Config}
use open_sesame.Secrets.Jit.{JitDelivery, Instants}
use open_sesame.Secrets.Unlock.Factor.{AuthFactorId}
use open_sesame.Secrets.Unlock.{Key, VaultMetadata, AuthCombineMode, PartialUnlock}

-- `Result`, with the `Display` of the error.
pub data Outcome {ℓ} (A : Type ℓ) : Type ℓ where
  ok : A → Outcome A
  err : Text → Outcome A

infixl 5 ◌>>=◌
abbrev pub ◌>>=◌ {ℓ κ} : {A : Type ℓ} {B : Type κ} → Outcome A → (A → Outcome B) → Outcome B
ok a >>= f = f a
err e >>= f = err e

-- An open store is a map, as the trait `SecretsStore` promises, behind the delivery cache.
pub record Vault : Type 0 where
  pub store : Map Text Text
  pub jit : JitDelivery

-- What the world answers while a message is handled: the clock, the files, the keyring, the disk
-- below an open store, and the cryptography.
pub record World : Type 0 where
  pub now : ℕ
  pub instants : Instants
  pub vault_exists : Text → Bool
  pub open_store : Text → Key → Outcome (Map Text Text)
  pub store_error : Option Text
  pub load_meta : Text → Outcome VaultMetadata
  pub keyring_retrieve : Text → Text → Option Key
  pub derive_master_key : Text → Text → Outcome Key
  pub derive_vault_key : Key → Text → Key
  pub derive_key : Text → List ℕ → Key
  pub any_value : Map AuthFactorId Key → Key

-- governor: the state of a direct limiter is a number; a check at an instant tells whether it passes.
pub record Governor : Type 0 where
  pub direct : ℕ
  pub check : ℕ → ℕ → Bool × ℕ

-- A `HashSet` of names.
abbrev pub has : Text → List Text → Bool
has name names = any (λ n. text_eq n name) names

abbrev pub insert_name : Text → List Text → List Text
insert_name name names = if has name names then names else name ∷ names

abbrev pub remove_name : Text → List Text → List Text
remove_name name = retain (λ n. not (text_eq n name))

pub record VaultState : Type 0 where
  pub master_keys : Map Text Key
  pub vaults : Map Text Vault
  pub active_profiles : List Text
  pub partial_unlocks : Map Text PartialUnlock
  pub ttl : ℕ

-- `VaultState` with the buckets of the rate limiter.
pub record Daemon : Type 0 where
  pub vault_state : VaultState
  pub limiters : Map Text ℕ

-- The state that `main` starts with.
unfoldable pub start : ℕ → Daemon
start ttl = record {
  vault_state = record {
    master_keys = [];
    vaults = [];
    active_profiles = [];
    partial_unlocks = [];
    ttl = ttl;
  };
  limiters = [];
}

pub record MessageContext : Type 0 where
  pub config : Config
  pub default_profile : Text
  pub governor : Governor

-- core-types/src/denial.rs
pub data SecretDenialReason : Type 0 where
  locked profile_not_active access_denied rate_limited not_found : SecretDenialReason
  vault_error : Text → SecretDenialReason

pub record SecretOperationAudit : Type 0 where
  pub action : Text
  pub profile : Text
  pub key : Option Text
  pub requester : ℕ
  pub requester_name : Option Text
  pub outcome : Text

pub record FactorResponse : Type 0 where
  pub accepted : Bool
  pub unlock_complete : Bool
  pub remaining_factors : List AuthFactorId
  pub remaining_additional : ℕ
  pub profile : Text
  pub error : Option Text

pub record VaultAuthQueryResponse : Type 0 where
  pub profile : Text
  pub enrolled_factors : List AuthFactorId
  pub auth_policy : AuthCombineMode
  pub partial_in_progress : Bool
  pub received_factors : List AuthFactorId

-- core-types/src/events.rs, the events that the daemon sends.
pub data Event : Type 0 where
  secret_operation_audit : SecretOperationAudit → Event
  secret_get_response : Text → Text → Option SecretDenialReason → Event
  secret_set_response secret_delete_response : Bool → Option SecretDenialReason → Event
  secret_list_response : List Text → Option SecretDenialReason → Event
  already_unlocked : Text → Event
  unlock_response : Bool → Text → Event
  lock_response : Bool → List Text → Event
  factor_response : FactorResponse → Event
  vault_auth_query_response : VaultAuthQueryResponse → Event
  profile_activate_response profile_deactivate_response : Bool → Event
  secrets_state_response : Bool → List Text → Map Text Bool → Event

-- The events that it handles.
pub data Request : Type 0 where
  daemon_started status_request secrets_state_request other_event : Request
  unlock_request : Text → Option Text → Request
  ssh_unlock_request : Key → Text → Request
  factor_submit : AuthFactorId → Key → Text → Request
  vault_auth_query : Text → Request
  lock_request : Option Text → Request
  secret_get secret_delete : Text → Text → Request
  secret_set : Text → Text → Text → Request
  secret_list profile_activate profile_deactivate : Text → Request

pub record Message : Type 0 where
  pub sender : ℕ
  pub verified_sender_name : Option Text
  pub payload : Request

-- What goes out: broadcast at level `Internal`, or as the answer to the message.
pub data Sent : Type 0 where
  published responded : Event → Sent

-- A handler leaves the state, what it has sent, and the event that the dispatch is to answer with.
pub record Handled : Type 0 where
  pub after : Daemon
  pub sent : List Sent
  pub event : Option Event
