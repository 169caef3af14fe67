-- ===== src/Secrets/Daemon/Answered.antt =====
-- What goes out for a message: the audit of each operation on a secret, and one answer.
use open_sesame.Prelude.{
  ℕ, ◌≡◌, refl, Bool, true, false, not, ◌||◌, Option, none, some, List, [], ◌∷◌, ◌++◌, is_empty,
  if◌then◌else◌,
}
use open_sesame.Prelude.Text.{Text, codes, text_eq}
use open_sesame.Prelude.Maps.{Map, list_eq}
use open_sesame.Secrets.Acl.{check_secret_access, check_secret_list_access}
use open_sesame.Secrets.Daemon.{
  Outcome, ok, err, Vault, World, VaultState, Daemon, MessageContext, Message, Handled, has,
  SecretDenialReason, locked, profile_not_active, access_denied, Event, secret_operation_audit,
  secret_get_response, secret_set_response, secret_delete_response, secret_list_response, published,
  responded,
}
use open_sesame.Secrets.Daemon.Opening.{vault_for}
use open_sesame.Secrets.Daemon.Gates.{
  gate, check_rate, after_rate, key_denied, validate_secret_key, Denied, emit_audit_event,
}
use open_sesame.Secrets.Daemon.Crud.{
  got, get_from, get_passed, handle_secret_get, written, set_in, set_passed, handle_secret_set,
  delete_in, delete_passed, handle_secret_delete, list_from, list_after_rate, handle_secret_list,
  with_state, list_keys, list_refused, list_outcome,
}
use open_sesame.Secrets.Daemon.Dispatch.{post_dispatch}

-- Whether a response to an operation on a secret tells of success.
abbrev is_granted : Event → Bool
is_granted (secret_get_response _ _ none) = true
is_granted (secret_set_response success _) = success
is_granted (secret_delete_response success _) = success
is_granted (secret_list_response _ none) = true
is_granted _ = false

-- Whether an audit does.
abbrev is_success_outcome : Text → Bool
is_success_outcome outcome = text_eq outcome (codes "success") || text_eq outcome (codes "empty")

-- The audit of the operation, for all to read, and then the answer to the requester, which agree.
abbrev pub IsAudited : Text → Text → Option Text → Message → Handled → Type 0
IsAudited action profile key msg h =
    (outcome : Text) × (answer : Event) × (h.sent ++ post_dispatch h.event
      ≡ published (
          secret_operation_audit (record {
            action = action;
            profile = profile;
            key = key;
            requester = msg.sender;
            requester_name = msg.verified_sender_name;
            outcome = outcome;
          }))
        ∷ responded answer
        ∷ [])
    × (is_success_outcome outcome ≡ is_granted answer)

module _ (world : World) (ctx : MessageContext) (msg : Message) (profile key : Text) where
  got-IsAudited :
      (d : Daemon) (vault : Vault) (o : Option Text)
      → IsAudited (codes "get") profile (some key) msg (got msg profile key d vault o)
  unfolding emit_audit_event text_eq
  got-IsAudited d vault none = (_, _, refl, refl)
  got-IsAudited d vault (some secret) = (_, _, refl, refl)

  get_from-IsAudited :
      (d : Daemon) (r : Outcome Vault × VaultState)
      → IsAudited (codes "get") profile (some key) msg (get_from world msg profile key d r)
  unfolding emit_audit_event text_eq
  get_from-IsAudited d (err e, s) = (_, _, refl, refl)
  get_from-IsAudited d (ok vault, s) = got-IsAudited _ vault _

  written-IsAudited :
      (action : Text) (o : Option SecretDenialReason) (d : Daemon)
      → IsAudited action profile
          (some key)
          msg
          (written action secret_set_response msg profile key o d)
        × IsAudited action profile
            (some key)
            msg
            (written action secret_delete_response msg profile key o d)
  unfolding emit_audit_event text_eq
  written-IsAudited action none d = ((_, _, refl, refl), (_, _, refl, refl))
  written-IsAudited action (some e) d = ((_, _, refl, refl), (_, _, refl, refl))

  -- A denial whose outcome in the audit is no success.
  abbrev IsFailure : Option Denied → Type 0
  IsFailure none = Unit
  IsFailure (some denied) = is_success_outcome denied.1 ≡ false

  key_denied-IsFailure : (o : Outcome (Unit {0})) → IsFailure (key_denied o)
  unfolding text_eq
  key_denied-IsFailure (ok _) = tt
  key_denied-IsFailure (err e) = refl

  after_rate-IsFailure : (allowed : Bool) → IsFailure (after_rate world ctx msg profile key allowed)
  unfolding text_eq
  after_rate-IsFailure false = refl
  after_rate-IsFailure true =
      by_policy (check_secret_access ctx.config profile msg.verified_sender_name key)
    where
      by_policy :
          (b : Bool)
          → IsFailure (
              if not b
              then some (access_denied, codes "denied-acl")
              else key_denied (validate_secret_key key))
      by_policy false = refl
      by_policy true = key_denied-IsFailure _

  gate-IsFailure : (d : Daemon) → IsFailure (gate world ctx msg profile key d).0
  unfolding gate text_eq
  gate-IsFailure d =
      by_keys (is_empty d.vault_state.master_keys) (has profile d.vault_state.active_profiles)
    where
      limited : Bool × Map Text ℕ
      limited = check_rate ctx.governor world.now msg.verified_sender_name d.limiters

      by_keys :
          (b c : Bool)
          → IsFailure
              (if◌then◌else◌ {A = Option Denied × Daemon} b
                (some (locked, codes "denied-locked"), d)
                (if not c
                  then (some (profile_not_active, codes "denied-profile-not-active"), d)
                  else (
                    after_rate world ctx msg profile key limited.0,
                    record d { limiters = limited.1 },
                  ))).0
      by_keys true c = refl
      by_keys false false = refl
      by_keys false true = after_rate-IsFailure limited.0

  get_passed-IsAudited :
      (r : Option Denied × Daemon)
      → IsFailure r.0
      → IsAudited (codes "get") profile (some key) msg (get_passed world msg profile key r)
  unfolding emit_audit_event
  get_passed-IsAudited (some denied, d) f = (_, _, refl, f)
  get_passed-IsAudited (none, d) f = get_from-IsAudited d _

  set_passed-IsAudited :
      (value : Text) (r : Option Denied × Daemon)
      → IsFailure r.0
      → IsAudited (codes "set") profile (some key) msg (set_passed world msg profile key value r)
  unfolding emit_audit_event
  set_passed-IsAudited value (some denied, d) f = (_, _, refl, f)
  set_passed-IsAudited value (none, d) f =
      (written-IsAudited (codes "set") _
        (with_state d (set_in world profile key value (vault_for world profile d.vault_state)).1)).0

  delete_passed-IsAudited :
      (r : Option Denied × Daemon)
      → IsFailure r.0
      → IsAudited (codes "delete") profile (some key) msg (delete_passed world msg profile key r)
  unfolding emit_audit_event
  delete_passed-IsAudited (some denied, d) f = (_, _, refl, f)
  delete_passed-IsAudited (none, d) f =
      (written-IsAudited (codes "delete") _
        (with_state d (delete_in world profile key (vault_for world profile d.vault_state)).1)).1

  -- The audit of a list names no key.
  abbrev ListAudited : Handled → Type 0
  ListAudited = IsAudited (codes "list") profile none msg

  list_from-IsAudited :
      (d : Daemon) (r : Outcome Vault × VaultState) → ListAudited (list_from world msg profile d r)
  unfolding emit_audit_event text_eq
  list_from-IsAudited d (err e, s) = (_, _, refl, refl)
  list_from-IsAudited d (ok vault, s) =
      (_, _, refl, listed (list_keys world.store_error vault.store))
    where
      listed : (keys : List Text) → is_success_outcome (list_outcome keys) ≡ true
      listed [] = refl
      listed (k ∷ keys) = refl

  list_after_rate-IsAudited :
      (d : Daemon) (allowed : Bool) → ListAudited (list_after_rate world ctx msg profile allowed d)
  unfolding emit_audit_event text_eq
  list_after_rate-IsAudited d false = (_, _, refl, refl)
  list_after_rate-IsAudited d true =
      by_policy (check_secret_list_access ctx.config profile msg.verified_sender_name)
    where
      by_policy :
          (b : Bool)
          → ListAudited (
              if not b
              then list_refused msg profile (access_denied, codes "denied-acl") d
              else list_from world msg profile d (vault_for world profile d.vault_state))
      by_policy false = (_, _, refl, refl)
      by_policy true = list_from-IsAudited d _

  handle_secret_list-IsAudited :
      (d : Daemon) → ListAudited (handle_secret_list world ctx msg profile d)
  unfolding handle_secret_list emit_audit_event text_eq
  handle_secret_list-IsAudited d =
      by_keys (is_empty d.vault_state.master_keys) (has profile d.vault_state.active_profiles)
    where
      limited : Bool × Map Text ℕ
      limited = check_rate ctx.governor world.now msg.verified_sender_name d.limiters

      by_keys :
          (b c : Bool)
          → ListAudited (
              if b
              then list_refused msg profile (locked, codes "denied-locked") d
              else if not c
              then list_refused msg profile
                  (profile_not_active, codes "denied-profile-not-active")
                  d
              else list_after_rate world ctx msg profile limited.0
                  (record d { limiters = limited.1 }))
      by_keys true c = (_, _, refl, refl)
      by_keys false false = (_, _, refl, refl)
      by_keys false true = list_after_rate-IsAudited _ limited.0

  -- Whatever becomes of it, each operation on a secret is published once for the audit, with the
  -- requester that the bus has verified, and then answered once; and the audit tells of success exactly
  -- if the answer does.
  pub handle_secret-IsAudited :
      (value : Text) (d : Daemon)
      → IsAudited
          (codes "get")
          profile
          (some key)
          msg
          (handle_secret_get world ctx msg profile key d)
        × IsAudited
            (codes "set")
            profile
            (some key)
            msg
            (handle_secret_set world ctx msg profile key value d)
        × IsAudited
            (codes "delete")
            profile
            (some key)
            msg
            (handle_secret_delete world ctx msg profile key d)
        × IsAudited (codes "list") profile none msg (handle_secret_list world ctx msg profile d)
  unfolding handle_secret_get handle_secret_set handle_secret_delete
  handle_secret-IsAudited value d = (
    get_passed-IsAudited _ (gate-IsFailure d),
    set_passed-IsAudited value _ (gate-IsFailure d),
    delete_passed-IsAudited _ (gate-IsFailure d),
    handle_secret_list-IsAudited d,
  )
