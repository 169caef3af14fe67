-- ===== src/Profile/Audit.antt =====
-- core-profile/src/audit.rs: the audit log, each line of which holds the hash of the line before.
pub mod Chain
pub mod Lines
pub mod Logger
pub mod Tamper
use open_sesame.Prelude.{
  ℕ, suc, ◌+◌, ◌%◌, ◌^◌, Bool, Option, none, some, List, [], ◌∷◌, ◌++◌, ◌&&◌, ◌==◌, if◌then◌else◌,
  is_empty,
}
use open_sesame.Prelude.Text.{Text, text_eq, trim, starts_with, push_head}

pub data AuditHash : Type 0 where
  blake3 sha256 : AuditHash

-- An entry with an action of the type `A`, which only the serializer looks into.
pub record AuditEntry (A : Type 0) : Type 0 where
  pub sequence : ℕ
  pub timestamp_ms : ℕ
  pub action : A
  pub prev_hash : Text
  pub agent_id : Option ℕ

-- What the log takes from other packages: serde_json on the entries, and the two hash functions,
-- with the digest in hexadecimal.
pub record Primitives (A : Type 0) : Type 0 where
  pub to_string : AuditEntry A → Option Text
  pub from_str : Text → Option (AuditEntry A)
  pub digest : AuditHash → Text → Text

-- `str::lines`: a line feed ends a line, and a carriage return right before it belongs to the end.
unfoldable pub str_lines : Text → List Text
str_lines [] = []
str_lines (c ∷ s) =
    let rest = str_lines s in
    if c == 10
    then [] ∷ rest
    else if c == 13 && starts_with s (10 ∷ [])
    then rest
    else push_head c rest

-- The writer of the logger is the text that it has taken.
pub record AuditLogger : Type 0 where
  pub writer : Text
  pub last_hash : Text
  pub sequence : ℕ
  pub hash_algorithm : AuditHash
  pub default_agent_id : Option ℕ

unfoldable pub new : Text → Text → ℕ → AuditHash → Option ℕ → AuditLogger
new writer last_hash sequence hash_algorithm default_agent_id = record {
  writer = writer;
  last_hash = last_hash;
  sequence = sequence;
  hash_algorithm = hash_algorithm;
  default_agent_id = default_agent_id;
}

pub data Outcome : Type 0 where
  appended serialization_failed write_failed flush_failed : Outcome

-- What the system does during an append: the time, and whether it writes and flushes. A write that
-- fails writes nothing.
pub record Conditions : Type 0 where
  pub timestamp_ms : ℕ
  pub writes : Bool
  pub flushes : Bool

pub data VerifyResult : Type 0 where
  verified : ℕ → VerifyResult
  parse_error : ℕ → VerifyResult
  chain_broken : ℕ → Text → Text → VerifyResult

module _ {A : Type 0} (p : Primitives A) where
  unfoldable pub entry_of : A → Conditions → AuditLogger → AuditEntry A
  entry_of action now logger = record {
    sequence = (logger.sequence + 1) % 2 ^ 64;
    timestamp_ms = now.timestamp_ms;
    action = action;
    prev_hash = logger.last_hash;
    agent_id = logger.default_agent_id;
  }

  -- The hash is kept before the line is written.
  abbrev write_line : Text → Conditions → AuditLogger → Outcome × AuditLogger
  write_line json now logger =
      let hashed = record logger { last_hash = p.digest logger.hash_algorithm json } in
      if now.writes
      then (
        if now.flushes then appended else flush_failed,
        record hashed { writer = logger.writer ++ (json ++ 10 ∷ []) },
      )
      else (write_failed, hashed)

  unfoldable pub append : A → Conditions → AuditLogger → Outcome × AuditLogger
  unfolding entry_of
  append action now logger =
      let counted = record logger { sequence = (logger.sequence + 1) % 2 ^ 64 } in
      elim (p.to_string (entry_of action now logger)) [
        | none ↦ (serialization_failed, counted)
        | some json ↦ write_line json now counted
      ]

  -- The loop of `verify_chain`, with the number of the line, the expected hash and the count.
  unfoldable pub verify_lines : AuditHash → ℕ → Text → ℕ → List Text → VerifyResult
  verify_lines algorithm line_num expected count [] = verified count
  verify_lines algorithm line_num expected count (line ∷ rest) =
      let skipped = verify_lines algorithm (suc line_num) expected count rest in
      let checked =
        verify_lines algorithm (suc line_num) (p.digest algorithm line) (suc count) rest in
      if is_empty (trim line) then skipped else elim (p.from_str line) [
        | none ↦ parse_error (suc line_num)
        | some entry ↦
            if text_eq entry.prev_hash expected
            then checked
            else chain_broken entry.sequence expected entry.prev_hash
      ]

  unfoldable pub verify_chain : Text → AuditHash → VerifyResult
  unfolding verify_lines str_lines
  verify_chain log_contents algorithm = verify_lines algorithm 0 [] 0 (str_lines log_contents)
