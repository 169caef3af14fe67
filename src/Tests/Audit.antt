-- ===== src/Tests/Audit.antt =====
-- Tests of the audit log and instances of its theorems, with a plain serializer and digest.
use open_sesame.Prelude.{
  ℕ, zero, suc, ◌+◌, ◌-◌, ◌≡◌, ◌≢◌, refl, subst, true, false, Option, some, none, List, [], ◌∷◌,
  map, arith, All,
}
use open_sesame.Prelude.Text.{text_eq, trim, is_whitespace, Text}
use open_sesame.Profile.Audit.{
  blake3, AuditEntry, Primitives, AuditLogger, new, Conditions, append, verify_chain, verified,
  chain_broken, str_lines,
}
use open_sesame.Profile.Audit.Chain.{entries}
use open_sesame.Profile.Audit.Tamper.{IsCollisionFree, verify_chain_unique}
use open_sesame.Profile.Audit.Logger.{append_all, verify_chain-append_all}
use open_sesame.Profile.Audit.Lines.{IsJson}

abbrev agent_code : Option ℕ → ℕ
agent_code none = 14
agent_code (some n) = n + 15

abbrev agent_of : ℕ → Option ℕ
agent_of c = elim (c - 14) [ zero ↦ none | suc n ↦ some n ]

abbrev written : AuditEntry ℕ → Text
written e =
    b'{'
    ∷ (e.sequence + 14)
    ∷ (e.timestamp_ms + 14)
    ∷ (e.action + 14)
    ∷ agent_code e.agent_id
    ∷ map (λ c. c + 14) e.prev_hash

abbrev read : Text → Option (AuditEntry ℕ)
read (_ ∷ s ∷ t ∷ a ∷ g ∷ h) = some (record {
  sequence = s - 14;
  timestamp_ms = t - 14;
  action = a - 14;
  prev_hash = map (λ c. c - 14) h;
  agent_id = agent_of g;
})
read _ = none

abbrev plain : Primitives ℕ
plain = record { to_string = λ e. some (written e); from_str = read; digest = λ a t. 0 ∷ t }

shifted : (h : Text) → map (λ c. c - 14) (map (λ c. c + 14) h) ≡ h
shifted [] = refl
shifted (c ∷ h) = ground (arith, shifted h)

shifted_line : (h : Text) → All (λ c. (c ≢ 10) × (c ≢ 13)) (map (λ c. c + 14) h)
shifted_line [] = tt
shifted_line (c ∷ h) = ((λ e. omega (arith, e), λ e. omega (arith, e)), shifted_line h)

agent_read : (o : Option ℕ) → agent_of (agent_code o) ≡ o
agent_read none = refl
agent_read (some n) = ground arith

shift : (n : ℕ) → n + 14 - 14 ≡ n
shift n = omega arith

high : (n : ℕ) → (n + 14 ≢ 10) × (n + 14 ≢ 13)
high n = (λ e. omega (arith, e), λ e. omega (arith, e))

agent_high : (o : Option ℕ) → (agent_code o ≢ 10) × (agent_code o ≢ 13)
agent_high none = (λ e. cc, λ e. cc)
agent_high (some n) = (λ e. omega (arith, e), λ e. omega (arith, e))

written-IsJson : (e : AuditEntry ℕ) → IsJson plain e (written e)
written-IsJson e = record {
  brace = refl;
  one_line = (
    (λ d. cc, λ d. cc),
    (
      high e.sequence,
      (high e.timestamp_ms, (high e.action, (agent_high e.agent_id, shifted_line e.prev_hash))),
    ),
  );
  read =
      rw
        (
          shift e.sequence,
          shift e.timestamp_ms,
          shift e.action,
          shifted e.prev_hash,
          agent_read e.agent_id,
        )
        refl;
}

serializes : (e : AuditEntry ℕ) (l : Text) → some (written e) ≡ some l → IsJson plain e l
serializes e l h = let same : written e ≡ l = cc in subst (IsJson plain e) same (written-IsJson e)

abbrev fine : ℕ → Conditions
fine t = record { timestamp_ms = t; writes = true; flushes = true }

abbrev lost : Conditions
lost = record { timestamp_ms = 5; writes = false; flushes = true }

abbrev fresh : AuditLogger
fresh = new [] [] 0 blake3 none

abbrev steps : List (ℕ × Conditions)
steps = (7, fine 1) ∷ (8, fine 2) ∷ []

abbrev log : Text
log = (append_all plain steps fresh).1.writer

log_verifies : verify_chain plain log blake3 ≡ verified 2
unfolding verify_chain append_all append new trim is_whitespace text_eq
log_verifies = refl

-- A line that is lost breaks the chain: its hash is kept all the same.
lost_line :
    verify_chain plain (append_all plain ((7, lost) ∷ (8, fine 2) ∷ []) fresh).1.writer blake3
    ≡ chain_broken 2 [] (
        0
        ∷ written (record {
          sequence = 1;
          timestamp_ms = 5;
          action = 7;
          prev_hash = [];
          agent_id = none;
        }))
unfolding verify_chain append_all append new trim is_whitespace text_eq
lost_line = refl

plain-IsCollisionFree : IsCollisionFree plain blake3
plain-IsCollisionFree = record { injective = λ s t h. cc; filled = λ s h. cc }

verify_chain-append_all_example :
    verify_chain plain (append_all plain steps (new [] [] 0 blake3 none)).1.writer blake3
    ≡ verified (append_all plain steps (new [] [] 0 blake3 none)).0
verify_chain-append_all_example =
    verify_chain-append_all plain blake3 none serializes steps (refl, (refl, tt))

spaced_verifies : verify_chain plain (10 ∷ log) blake3 ≡ verified 2
unfolding verify_chain trim append_all append new is_whitespace text_eq
spaced_verifies = refl

verify_chain_unique_example : entries (str_lines log) ≡ entries (str_lines (10 ∷ log))
unfolding append_all append new str_lines trim
verify_chain_unique_example =
    verify_chain_unique plain blake3 plain-IsCollisionFree log (10 ∷ log) 2 2 log_verifies
      spaced_verifies refl
