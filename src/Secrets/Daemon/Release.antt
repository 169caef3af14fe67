-- ===== src/Secrets/Daemon/Release.antt =====
-- When a secret leaves the daemon, and when a request is refused.
use open_sesame.Prelude.{
  ◌≡◌, refl, subst, true, false, Option, none, some, [], ◌∷◌, is_empty, arith,
}
use open_sesame.Prelude.Text.{Text, codes}
use open_sesame.Prelude.Maps.{list_eq}
use open_sesame.Secrets.Acl.{check_secret_access}
use open_sesame.Secrets.Jit.{resolve}
use open_sesame.Secrets.Daemon.{
  Outcome, ok, err, Vault, World, VaultState, Daemon, MessageContext, Message, Handled, has,
  SecretDenialReason, locked, profile_not_active, rate_limited, access_denied, vault_error, Event,
  secret_get_response, secret_set_response, secret_delete_response, secret_operation_audit,
  published, responded,
}
use open_sesame.Secrets.Daemon.Opening.{vault_for}
use open_sesame.Secrets.Daemon.Gates.{
  gate, check_rate, key_denied, validate_secret_key, Denied, emit_audit_event,
}
use open_sesame.Secrets.Daemon.Crud.{
  got, get_from, get_passed, handle_secret_get, set_passed, handle_secret_set, delete_passed,
  handle_secret_delete, store_get,
}
use open_sesame.Secrets.Daemon.Access.{gate-state}
use open_sesame.Secrets.Daemon.Bounded.{IsUnlocked}
use open_sesame.Secrets.Daemon.History.{Reaches, Reaches-IsBounded}

module _ (world : World) (ctx : MessageContext) (msg : Message) (profile key : Text)
    (d : Daemon) where
  -- What the gates ask for.
  pub record Passes : Type 0 where
    pub some_unlocked : is_empty d.vault_state.master_keys ≡ false
    pub active : has profile d.vault_state.active_profiles ≡ true
    pub in_rate : (check_rate ctx.governor world.now msg.verified_sender_name d.limiters).0 ≡ true
    pub granted : check_secret_access ctx.config profile msg.verified_sender_name key ≡ true
    pub valid : validate_secret_key key ≡ ok tt

  key_denied-none : (o : Outcome (Unit {0})) → key_denied o ≡ none → o ≡ ok tt
  key_denied-none (ok tt) h = refl
  key_denied-none (err e) h = cc

  gate-Passes : (gate world ctx msg profile key d).0 ≡ none → Passes
  unfolding gate
  gate-Passes h = record {
    some_unlocked = ground arith;
    active = ground arith;
    in_rate = ground arith;
    granted = ground arith;
    valid = ground (arith, key_denied-none (validate_secret_key key));
  }

  Passes-gate : Passes → (gate world ctx msg profile key d).0 ≡ none
  unfolding gate
  Passes-gate p = rw (p.some_unlocked, p.active, p.in_rate, p.granted, p.valid) refl

module _ (world : World) (ctx : MessageContext) (msg : Message) (profile key : Text)
    (d : Daemon) where
  -- Why a request is refused: the first that holds, with its name in the audit.
  pub data Refuses : SecretDenialReason → Text → Type 0 where
    all_locked : is_empty d.vault_state.master_keys ≡ true → Refuses locked (codes "denied-locked")
    inactive :
        is_empty d.vault_state.master_keys ≡ false
        → has profile d.vault_state.active_profiles ≡ false
        → Refuses profile_not_active (codes "denied-profile-not-active")
    over_rate :
        is_empty d.vault_state.master_keys ≡ false
        → has profile d.vault_state.active_profiles ≡ true
        → (check_rate ctx.governor world.now msg.verified_sender_name d.limiters).0 ≡ false
        → Refuses rate_limited (codes "rate-limited")
    not_granted :
        is_empty d.vault_state.master_keys ≡ false
        → has profile d.vault_state.active_profiles ≡ true
        → (check_rate ctx.governor world.now msg.verified_sender_name d.limiters).0 ≡ true
        → check_secret_access ctx.config profile msg.verified_sender_name key ≡ false
        → Refuses access_denied (codes "denied-acl")
    invalid_key :
        (e : Text)
        → is_empty d.vault_state.master_keys ≡ false
        → has profile d.vault_state.active_profiles ≡ true
        → (check_rate ctx.governor world.now msg.verified_sender_name d.limiters).0 ≡ true
        → check_secret_access ctx.config profile msg.verified_sender_name key ≡ true
        → validate_secret_key key ≡ err e
        → Refuses (vault_error e) (codes "denied-invalid-key")

  Refuses-gate :
      {reason : SecretDenialReason} {outcome : Text}
      → Refuses reason outcome
      → (gate world ctx msg profile key d).0 ≡ some (reason, outcome)
  unfolding gate
  Refuses-gate (all_locked h) = rw h refl
  Refuses-gate (inactive h i) = rw (h, i) refl
  Refuses-gate (over_rate h i j) = rw (h, i, j) refl
  Refuses-gate (not_granted h i j k) = rw (h, i, j, k) refl
  Refuses-gate (invalid_key e h i j k l) = rw (h, i, j, k, l) refl

  -- Nothing of the vaults changes, and two messages go out: the audit of the action for everybody, with
  -- the requester as the bus has verified it, and the response.
  abbrev pub IsRefusal : Text → Text → Event → Handled → Type 0
  IsRefusal action outcome response h =
      (h.after.vault_state ≡ d.vault_state)
      × (h.event ≡ none)
      × (h.sent
          ≡ published (
              secret_operation_audit (record {
                action = action;
                profile = profile;
                key = some key;
                requester = msg.sender;
                requester_name = msg.verified_sender_name;
                outcome = outcome;
              }))
            ∷ responded response
            ∷ [])

  module _ {reason : SecretDenialReason} {outcome : Text} (r : Option Denied × Daemon)
      (shut : r.0 ≡ some (reason, outcome)) (kept : r.1.vault_state ≡ d.vault_state) where
    get_passed-IsRefusal :
        IsRefusal
          (codes "get")
          outcome
          (secret_get_response key [] (some reason))
          (get_passed world msg profile key r)
    unfolding emit_audit_event
    get_passed-IsRefusal = by_result r shut kept
      where
        by_result :
            (q : Option Denied × Daemon)
            → q.0 ≡ some (reason, outcome)
            → q.1.vault_state ≡ d.vault_state
            → IsRefusal
                (codes "get")
                outcome
                (secret_get_response key [] (some reason))
                (get_passed world msg profile key q)
        by_result (none, e) h same = cc
        by_result (some (w, o), e) h same = (same, refl, cc)

    set_passed-IsRefusal :
        (value : Text)
        → IsRefusal
            (codes "set")
            outcome
            (secret_set_response false (some reason))
            (set_passed world msg profile key value r)
    unfolding emit_audit_event
    set_passed-IsRefusal value = by_result r shut kept
      where
        by_result :
            (q : Option Denied × Daemon)
            → q.0 ≡ some (reason, outcome)
            → q.1.vault_state ≡ d.vault_state
            → IsRefusal
                (codes "set")
                outcome
                (secret_set_response false (some reason))
                (set_passed world msg profile key value q)
        by_result (none, e) h same = cc
        by_result (some (w, o), e) h same = (same, refl, cc)

    delete_passed-IsRefusal :
        IsRefusal
          (codes "delete")
          outcome
          (secret_delete_response false (some reason))
          (delete_passed world msg profile key r)
    unfolding emit_audit_event
    delete_passed-IsRefusal = by_result r shut kept
      where
        by_result :
            (q : Option Denied × Daemon)
            → q.0 ≡ some (reason, outcome)
            → q.1.vault_state ≡ d.vault_state
            → IsRefusal
                (codes "delete")
                outcome
                (secret_delete_response false (some reason))
                (delete_passed world msg profile key q)
        by_result (none, e) h same = cc
        by_result (some (w, o), e) h same = (same, refl, cc)

  -- A get, a set or a delete is refused for the first of these that holds: no profile is unlocked, the
  -- profile is not active, the requester is over its rate, the policy does not grant it the key, or the
  -- key is not valid. It then leaves the vaults, the keys and the active profiles as they are, and sends
  -- the audit with that reason, and the response with it and no secret, and nothing else.
  pub gate-IsRefusal :
      (value outcome : Text) (reason : SecretDenialReason)
      → Refuses reason outcome
      → IsRefusal
          (codes "get")
          outcome
          (secret_get_response key [] (some reason))
          (handle_secret_get world ctx msg profile key d)
        × IsRefusal
            (codes "set")
            outcome
            (secret_set_response false (some reason))
            (handle_secret_set world ctx msg profile key value d)
        × IsRefusal
            (codes "delete")
            outcome
            (secret_delete_response false (some reason))
            (handle_secret_delete world ctx msg profile key d)
  unfolding handle_secret_get handle_secret_set handle_secret_delete
  gate-IsRefusal value outcome reason refuses =
      let shut = Refuses-gate refuses in
      let kept = gate-state world ctx msg profile key d in
      (
        get_passed-IsRefusal (gate world ctx msg profile key d) shut kept,
        set_passed-IsRefusal (gate world ctx msg profile key d) shut kept value,
        delete_passed-IsRefusal (gate world ctx msg profile key d) shut kept,
      )

  got-released :
      (e : Daemon) (vault : Vault) (secret : Text) (o : Option Text)
      → (got msg profile key e vault o).event ≡ some (secret_get_response key secret none)
      → o ≡ some secret
  got-released e vault secret none h = cc
  got-released e vault secret (some s) h = cc

  -- The vault that is open, and its cache or its store has the secret.
  abbrev pub Holds : Outcome Vault → Text → Type 0
  Holds o secret =
      (vault : Vault) × (o ≡ ok vault)
      × ((resolve (store_get world.store_error vault.store) key world.instants vault.jit).0
          ≡ some secret)

  get_from-Holds :
      (e : Daemon) (secret : Text) (r : Outcome Vault × VaultState)
      → (get_from world msg profile key e r).event ≡ some (secret_get_response key secret none)
      → Holds r.0 secret
  get_from-Holds e secret (err x, s) h = absurd (differ h)
    where
      differ :
          (get_from world msg profile key e (err x, s)).event
            ≡ some (secret_get_response key secret none)
          → ⊥
      differ h = cc
  get_from-Holds e secret (ok vault, s) h = (vault, refl, got-released _ vault secret _ h)

  get_passed-Holds :
      (secret : Text) (r : Option Denied × Daemon)
      → (get_passed world msg profile key r).event ≡ some (secret_get_response key secret none)
      → (r.0 ≡ none) × Holds (vault_for world profile r.1.vault_state).0 secret
  get_passed-Holds secret (some denied, e) h = absurd (differ h)
    where
      differ :
          (get_passed world msg profile key (some denied, e)).event
            ≡ some (secret_get_response key secret none)
          → ⊥
      differ h = cc
  get_passed-Holds secret (none, e) h = (refl, get_from-Holds e secret _ h)

  -- A secret leaves a daemon, in whatever state it has come to, only if the profile is active and
  -- unlocked, the requester is within its rate, the policy grants it the key, and the key is valid;
  -- and it is what the profile's vault holds for the key.
  pub handle_secret_get-released :
      (secret : Text)
      → Reaches d
      → (handle_secret_get world ctx msg profile key d).event
        ≡ some (secret_get_response key secret none)
      → Passes world ctx msg profile key d
        × IsUnlocked d.vault_state profile
        × Holds (vault_for world profile d.vault_state).0 secret
  unfolding handle_secret_get
  handle_secret_get-released secret r h =
      let (open_gate, holds) = get_passed-Holds secret (gate world ctx msg profile key d) h in
      (
        gate-Passes world ctx msg profile key d open_gate,
        (Reaches-IsBounded r).active profile
            (gate-Passes world ctx msg profile key d open_gate).active,
        subst (λ s. Holds (vault_for world profile s).0 secret)
            (gate-state world ctx msg profile key d) holds,
      )
