-- ===== src/Secrets/Daemon/Gates.antt =====
-- daemon-secrets/src/crud.rs: the gates in front of every secret, and rate_limit.rs.
use open_sesame.Prelude.{
  ℕ, Bool, not, ◌||◌, Option, none, some, List, [], ◌∷◌, ltb, if◌then◌else◌, is_empty,
}
use open_sesame.Prelude.Text.{Text, codes, str_len}
use open_sesame.Prelude.Split.{has_char, has_dots}
use open_sesame.Prelude.Maps.{Map, list_eq, get, insert}
use open_sesame.Secrets.Acl.{check_secret_access}
use open_sesame.Secrets.Daemon.{
  Outcome, ok, err, World, Governor, Daemon, MessageContext, SecretDenialReason, locked,
  profile_not_active, access_denied, rate_limited, vault_error, Event, secret_operation_audit,
  Message, Sent, published, responded, has,
}

-- core-types/src/error.rs; the length is left out of the text of the error.
unfoldable pub validate_secret_key : Text → Outcome (Unit {0})
validate_secret_key key =
    if is_empty key
    then err (codes "validation error: secret key must not be empty")
    else if ltb 256 (str_len key)
    then err (codes "validation error: secret key exceeds 256 characters")
    else if has_dots key
    then err (codes "validation error: secret key must not contain '..' (path traversal)")
    else if has_char b'/' key || has_char 92 key
    then err (codes "validation error: secret key must not contain path separators ('/' or '\\')")
    else if has_char 0 key
    then err (codes "validation error: secret key must not contain null bytes")
    else ok tt

abbrev anonymous_rate_key : Text
anonymous_rate_key = codes "__anonymous__"

abbrev rate_key : Option Text → Text
rate_key none = anonymous_rate_key
rate_key (some name) = name

abbrev limiter_or : ℕ → Option ℕ → ℕ
limiter_or direct none = direct
limiter_or direct (some limiter) = limiter

-- `SecretRateLimiter::check`.
unfoldable pub check_rate : Governor → ℕ → Option Text → Map Text ℕ → Bool × Map Text ℕ
check_rate governor now sender limiters =
    let key = rate_key sender in
    let (allowed, limiter) = governor.check (limiter_or governor.direct (get limiters key)) now in
    (allowed, insert key limiter limiters)

-- A gate that is shut, with the outcome for the audit.
abbrev pub Denied : Type 0
Denied = SecretDenialReason × Text

abbrev pub key_denied : Outcome (Unit {0}) → Option Denied
key_denied (ok _) = none
key_denied (err e) = some (vault_error e, codes "denied-invalid-key")

abbrev pub after_rate : World → MessageContext → Message → Text → Text → Bool → Option Denied
after_rate world ctx msg profile key allowed =
    if not allowed
    then some (rate_limited, codes "rate-limited")
    else if not (check_secret_access ctx.config profile msg.verified_sender_name key)
    then some (access_denied, codes "denied-acl")
    else key_denied (validate_secret_key key)

-- The first gate that is shut, and the daemon, whose rate limiter may have counted the request.
unfoldable pub gate :
    World → MessageContext → Message → Text → Text → Daemon → Option Denied × Daemon
gate world ctx msg profile key d =
    if is_empty d.vault_state.master_keys
    then (some (locked, codes "denied-locked"), d)
    else if not (has profile d.vault_state.active_profiles)
    then (some (profile_not_active, codes "denied-profile-not-active"), d)
    else (let (allowed, limiters) =
          check_rate ctx.governor world.now msg.verified_sender_name d.limiters in
        (after_rate world ctx msg profile key allowed, record d { limiters = limiters }))

unfoldable pub emit_audit_event : Text → Text → Option Text → Message → Text → Sent
emit_audit_event action profile key msg outcome = published (
    secret_operation_audit (record {
      action = action;
      profile = profile;
      key = key;
      requester = msg.sender;
      requester_name = msg.verified_sender_name;
      outcome = outcome;
    }))

-- The audit and the early response to a denied request.
abbrev pub deny :
    Text → Text → Option Text → Message → (SecretDenialReason → Event) → Denied → List Sent
deny action profile key msg deny_event (reason, outcome) =
    emit_audit_event action profile key msg outcome ∷ responded (deny_event reason) ∷ []
