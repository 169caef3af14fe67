-- ===== src/Secrets/Daemon/Unlocking.antt =====
-- daemon-secrets/src/unlock.rs: unlocking vaults by password, by SSH agent or by several factors, and
-- locking them.
use open_sesame.Prelude.{
  ℕ, Bool, true, false, not, Option, none, some, List, [], ◌∷◌, ◌++◌, map, if◌then◌else◌, leb,
}
use open_sesame.Prelude.Text.{Text, codes}
use open_sesame.Prelude.Maps.{Map, list_eq, get, insert, remove}
use open_sesame.Prelude.Update.{retain_values}
use open_sesame.Secrets.Jit.{new}
use open_sesame.Secrets.Unlock.Factor.{AuthFactorId, factor_eq, factor_index, as_config_str}
use open_sesame.Secrets.Unlock.{
  Key, VaultMetadata, AuthCombineMode, any_mode, all_mode, policy, PartialUnlock, contains,
  is_complete, is_expired, fresh_partial, record_factor,
}
use open_sesame.Secrets.Daemon.{
  Outcome, ok, err, World, VaultState, Daemon, MessageContext, Event, already_unlocked,
  unlock_response, lock_response, factor_response, vault_auth_query_response,
  VaultAuthQueryResponse, responded, Handled, remove_name,
}
use open_sesame.Secrets.Daemon.Crud.{with_state, refused, answered}

-- `UnlockResult`: the key, and the store if the key was verified on one.
abbrev pub UnlockResult : Type 0
UnlockResult = Key × Option (Map Text Text)

abbrev pub verified : Key → Outcome (Map Text Text) → Outcome UnlockResult
verified master_key (ok store) = ok (master_key, some store)
verified master_key (err e) =
    err (codes "secrets error: wrong password: vault key verification failed")

abbrev pub verify : World → Text → Key → Outcome UnlockResult
verify world profile master_key =
    if world.vault_exists profile
    then verified master_key (world.open_store profile (world.derive_vault_key master_key profile))
    else ok (master_key, none)

abbrev pub derived : World → Text → Outcome Key → Outcome UnlockResult
derived world profile (err e) = err e
derived world profile (ok master_key) = verify world profile master_key

abbrev from_keyring : World → Text → Text → Option Key → Outcome UnlockResult
from_keyring world password profile (some master_key) = ok (master_key, none)
from_keyring world password profile none =
    derived world profile (world.derive_master_key profile password)

-- The keyring answers only with a salt file; the derivation reads it, or makes a new one.
unfoldable pub unlock_profile : World → Text → Text → Outcome UnlockResult
unlock_profile world password profile =
    from_keyring world password profile (world.keyring_retrieve profile password)

abbrev cache_store : Text → Option (Map Text Text) → VaultState → VaultState
cache_store target none s = s
cache_store target (some store) s = record s {
  vaults = insert target (record { store = store; jit = new s.ttl }) s.vaults;
}

unfoldable pub keep_key : Text → UnlockResult → VaultState → VaultState
keep_key target (master_key, store) s =
    cache_store target store (record s { master_keys = insert target master_key s.master_keys })

abbrev pub unlocked : Text → Daemon → Outcome UnlockResult → Handled
unlocked target d (ok result) =
    answered (with_state d (keep_key target result d.vault_state)) [] (unlock_response true target)
unlocked target d (err e) = answered d [] (unlock_response false target)

abbrev reject_unlocked : Text → Daemon → Handled
reject_unlocked target d = refused d (responded (already_unlocked target) ∷ [])

abbrev pub target_of : MessageContext → Option Text → Text
target_of ctx none = ctx.default_profile
target_of ctx (some profile) = profile

abbrev pub unlock_target : World → Text → Text → Option Key → Daemon → Handled
unlock_target world password target (some key) d = reject_unlocked target d
unlock_target world password target none d =
    unlocked target d (unlock_profile world password target)

unfoldable pub handle_unlock_request :
    World → MessageContext → Text → Option Text → Daemon → Handled
unfolding unlock_profile keep_key
handle_unlock_request world ctx password profile d =
    let target = target_of ctx profile in
    unlock_target world password target (get d.vault_state.master_keys target) d

abbrev pub ssh_unlock_target : World → Key → Text → Option Key → Daemon → Handled
ssh_unlock_target world master_key target (some key) d = reject_unlocked target d
ssh_unlock_target world master_key target none d =
    unlocked target d (verify world target master_key)

unfoldable pub handle_ssh_unlock : World → Key → Text → Daemon → Handled
unfolding keep_key
handle_ssh_unlock world master_key profile d =
    ssh_unlock_target world master_key profile (get d.vault_state.master_keys profile) d

-- A factor that is not accepted.
abbrev factor_rejected : Text → Text → Daemon → Handled
factor_rejected target error d = refused d (
    responded (
      factor_response (record {
        accepted = false;
        unlock_complete = false;
        remaining_factors = [];
        remaining_additional = 0;
        profile = target;
        error = some error;
      }))
    ∷ [])

abbrev factor_accepted : Text → Bool → PartialUnlock → Event
factor_accepted target complete p = factor_response (record {
  accepted = true;
  unlock_complete = complete;
  remaining_factors = p.remaining_required;
  remaining_additional = p.remaining_additional;
  profile = target;
  error = none;
})

-- `sort_by_key` on the factor.
abbrev insert_piece : AuthFactorId × Key → List (AuthFactorId × Key) → List (AuthFactorId × Key)
insert_piece piece [] = piece ∷ []
insert_piece piece (p ∷ ps) =
    let rest = insert_piece piece ps in
    if leb (factor_index piece.0) (factor_index p.0) then piece ∷ p ∷ ps else p ∷ rest

abbrev sort_pieces : List (AuthFactorId × Key) → List (AuthFactorId × Key)
sort_pieces [] = []
sort_pieces (p ∷ ps) = insert_piece p (sort_pieces ps)

abbrev concat_pieces : List (AuthFactorId × Key) → List ℕ
concat_pieces [] = []
concat_pieces (p ∷ ps) = p.1 ++ concat_pieces ps

abbrev all_mode_kdf_context : Text
all_mode_kdf_context = codes "pds v2 combined-master-key"

-- The master key from the factors: combined where all are required, else any of them.
unfoldable pub promoted_key : World → VaultMetadata → Text → Map AuthFactorId Key → Key
promoted_key world meta target received = elim meta.auth_policy [
  | all_mode ↦
      world.derive_key (all_mode_kdf_context ++ (codes " " ++ target))
        (concat_pieces (sort_pieces received))
  | _ ↦ world.any_value received
]

abbrev put_partial : Text → PartialUnlock → VaultState → VaultState
put_partial target p s = record s { partial_unlocks = insert target p s.partial_unlocks }

unfoldable pub promote : World → VaultMetadata → Text → PartialUnlock → VaultState → VaultState
unfolding promoted_key
promote world meta target p s = record s {
  partial_unlocks = remove target s.partial_unlocks;
  master_keys = insert target (promoted_key world meta target p.received_factors) s.master_keys;
}

abbrev pub recorded : World → VaultMetadata → Text → PartialUnlock → Daemon → Handled
recorded world meta target p d =
    if is_complete p
    then answered (with_state d (promote world meta target p d.vault_state)) []
        (factor_accepted target true p)
    else answered (with_state d (put_partial target p d.vault_state)) []
        (factor_accepted target false p)

abbrev pub partial_or : PartialUnlock → Option PartialUnlock → PartialUnlock
partial_or fresh none = fresh
partial_or fresh (some p) = p

abbrev drop_partial : Text → VaultState → VaultState
drop_partial target s = record s { partial_unlocks = remove target s.partial_unlocks }

abbrev pub submit_to :
    World → VaultMetadata → AuthFactorId → Key → Text → PartialUnlock → Daemon → Handled
submit_to world meta factor key target p d =
    if is_expired world.now p
    then factor_rejected target (codes "partial unlock expired")
        (with_state d (drop_partial target d.vault_state))
    else recorded world meta target (record_factor meta factor key p) d

-- Whether a factor's key is the whole master key, which the vault can then be opened with.
abbrev is_complete_key : AuthCombineMode → Bool
is_complete_key all_mode = false
is_complete_key any_mode = true
is_complete_key (policy _) = true

abbrev is_ok {ℓ} : {A : Type ℓ} → Outcome A → Bool
is_ok (ok _) = true
is_ok (err _) = false

abbrev pub fails_verification : World → VaultMetadata → Text → Key → Bool
fails_verification world meta target key =
    if world.vault_exists target
    then (if is_complete_key meta.auth_policy
        then not (is_ok (world.open_store target (world.derive_vault_key key target)))
        else false)
    else false

abbrev pub submit_enrolled : World → VaultMetadata → AuthFactorId → Key → Text → Daemon → Handled
submit_enrolled world meta factor key target d =
    if not (contains meta.enrolled_factors factor)
    then factor_rejected target (codes "factor " ++ (as_config_str factor ++ codes " not enrolled"))
        d
    else if fails_verification world meta target key
    then factor_rejected target (codes "factor key verification failed") d
    else submit_to world meta factor key target
        (partial_or (fresh_partial meta world.now) (get d.vault_state.partial_unlocks target)) d

abbrev pub submit_loaded :
    World → Outcome VaultMetadata → AuthFactorId → Key → Text → Daemon → Handled
submit_loaded world (err e) factor key target d =
    factor_rejected target (codes "vault metadata error: " ++ e) d
submit_loaded world (ok meta) factor key target d = submit_enrolled world meta factor key target d

abbrev pub submit_target : World → AuthFactorId → Key → Text → Option Key → Daemon → Handled
submit_target world factor key target (some master_key) d =
    factor_rejected target (codes "already unlocked") d
submit_target world factor key target none d =
    submit_loaded world (world.load_meta target) factor key target d

unfoldable pub handle_factor_submit : World → AuthFactorId → Key → Text → Daemon → Handled
unfolding is_complete is_expired record_factor fresh_partial promote
handle_factor_submit world factor key target d =
    submit_target world factor key target (get d.vault_state.master_keys target) d

abbrev received_of : Option PartialUnlock → List AuthFactorId
received_of none = []
received_of (some p) = map (λ entry. entry.0) p.received_factors

abbrev is_there {ℓ} : {A : Type ℓ} → Option A → Bool
is_there none = false
is_there (some _) = true

abbrev queried : Text → Option PartialUnlock → Outcome VaultMetadata → VaultAuthQueryResponse
queried target partial (ok m) = record {
  profile = target;
  enrolled_factors = m.enrolled_factors;
  auth_policy = m.auth_policy;
  partial_in_progress = is_there partial;
  received_factors = received_of partial;
}
queried target partial (err e) = record {
  profile = target;
  enrolled_factors = [];
  auth_policy = any_mode;
  partial_in_progress = false;
  received_factors = [];
}

unfoldable pub handle_vault_auth_query : World → Text → Daemon → Handled
handle_vault_auth_query world target d = answered d [] (
    vault_auth_query_response
      (queried target (get d.vault_state.partial_unlocks target) (world.load_meta target)))

abbrev pub lock_one : Text → VaultState → VaultState
lock_one target s = record s {
  active_profiles = remove_name target s.active_profiles;
  vaults = remove target s.vaults;
  master_keys = remove target s.master_keys;
  partial_unlocks = remove target s.partial_unlocks;
}

abbrev pub lock_all : VaultState → VaultState
lock_all s = record s { active_profiles = []; vaults = []; master_keys = []; partial_unlocks = [] }

-- The rate limiter starts anew, too.
unfoldable pub handle_lock_request : Option Text → Daemon → Handled
handle_lock_request none d =
    answered (record { vault_state = lock_all d.vault_state; limiters = [] }) []
      (lock_response true (map (λ entry. entry.0) d.vault_state.master_keys))
handle_lock_request (some target) d =
    answered (record { vault_state = lock_one target d.vault_state; limiters = [] }) []
      (lock_response true (target ∷ []))

-- `main`: the sweep of partial unlocks whose time is over.
unfoldable pub sweep : ℕ → VaultState → VaultState
sweep now s = record s {
  partial_unlocks = retain_values (λ p. not (is_expired now p)) s.partial_unlocks;
}
