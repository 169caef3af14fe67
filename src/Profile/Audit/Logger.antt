-- ===== src/Profile/Audit/Logger.antt =====
-- What a logger appends verifies.
use open_sesame.Prelude.{
  ℕ, suc, ◌+◌, ◌%◌, ◌^◌, if◌then◌else◌, ◌≡◌, refl, sym, ◌∙◌, ap, subst, inl, inr, Bool, true, false,
  Option, Option-cases, some, List, [], ◌∷◌, ◌++◌, arith, length, length-append, All,
}
use mathlib.Core.List.{append_assoc}
use open_sesame.Prelude.Text.{Text}
use open_sesame.Profile.Audit.{
  AuditHash, AuditEntry, Primitives, AuditLogger, new, Outcome, appended, flush_failed, Conditions,
  verified, entry_of, append, verify_chain, str_lines,
}
use open_sesame.Profile.Audit.Chain.{entries, Follows, Chained, Leads, verify_chain_iff}
use open_sesame.Profile.Audit.Lines.{IsJson, str_lines-feed, brace-full, entries-append_full}

module _ {A : Type 0} (p : Primitives A) where
  Chained-append :
      (a : AuditHash) (h : Text) (ls : List Text) (l head : Text)
      → Chained p a h ls head
      → Follows p a head l
      → Chained p a h (ls ++ l ∷ []) (p.digest a l)
  Chained-append a h [] l head c f = (subst (λ k. Follows p a k l) (sym c) f, refl)
  Chained-append a h (k ∷ ls) l head c f = (c.0, Chained-append a (p.digest a k) ls l head c.1 f)

  -- The log that a logger has written: what comes behind it starts a new line, and its `n` entries
  -- are a chain that ends in the logger's hash.
  pub record IsSound (n : ℕ) (logger : AuditLogger) : Type 0 where
    pub apart : (s : Text) → str_lines (logger.writer ++ s) ≡ str_lines logger.writer ++ str_lines s
    pub chained : Leads p logger.hash_algorithm [] (str_lines logger.writer) logger.last_hash
    pub count : length (entries (str_lines logger.writer)) ≡ n

  -- The lines that an append has written.
  abbrev written_by : Outcome → ℕ
  written_by appended = 1
  written_by flush_failed = 1
  written_by _ = 0

  module _
      (serializes : (e : AuditEntry A) (l : Text) → p.to_string e ≡ some l → IsJson p e l) where
    module _ (action : A) (now : Conditions) (n : ℕ) (logger : AuditLogger)
        (sound : IsSound n logger) (json : Text)
        (j : IsJson p (entry_of p action now logger) json) where
      line : Text
      line = json ++ 10 ∷ []

      str_lines-line : (s : Text) → str_lines (line ++ s) ≡ json ∷ str_lines s
      unfolding line
      str_lines-line s =
          ap str_lines (append_assoc json (10 ∷ []) s) ∙ str_lines-feed json s j.one_line

      str_lines-written : str_lines (logger.writer ++ line) ≡ str_lines logger.writer ++ json ∷ []
      unfolding line
      str_lines-written =
          sound.apart line
          ∙ ap (λ ls. str_lines logger.writer ++ ls)
              (str_lines-feed json [] j.one_line ∙ ap (λ ls. json ∷ ls) (unfold str_lines in refl))

      written_entries :
          entries (str_lines (logger.writer ++ line))
          ≡ entries (str_lines logger.writer) ++ json ∷ []
      written_entries =
          ap entries str_lines-written
          ∙ entries-append_full (str_lines logger.writer) json (brace-full json j.brace)

      written-IsSound :
          (sequence : ℕ)
          → IsSound (suc n) (record logger {
            writer = logger.writer ++ line;
            last_hash = p.digest logger.hash_algorithm json;
            sequence = sequence;
          })
      unfolding entry_of
      written-IsSound sequence = record {
        apart = λ s.
            ap str_lines (append_assoc logger.writer line s)
            ∙ (sound.apart (line ++ s)
                ∙ (ap (λ ls. str_lines logger.writer ++ ls) (str_lines-line s)
                    ∙ (sym (append_assoc (str_lines logger.writer) (json ∷ []) (str_lines s))
                        ∙ ap (λ ls. ls ++ str_lines s) (sym str_lines-written))));
        chained =
            subst
              (λ es. Chained p logger.hash_algorithm [] es (p.digest logger.hash_algorithm json))
              (sym written_entries)
              (Chained-append logger.hash_algorithm [] (entries (str_lines logger.writer)) json
                logger.last_hash sound.chained (entry_of p action now logger, j.read, refl));
        count =
            ap length written_entries
            ∙ (length-append (entries (str_lines logger.writer)) (json ∷ [])
                ∙ omega (arith, sound.count));
      }

    append-IsSound :
        (action : A) (now : Conditions) (n : ℕ) (logger : AuditLogger)
        → now.writes ≡ true
        → IsSound n logger
        → IsSound (written_by (append p action now logger).0 + n) (append p action now logger).1
    unfolding append line
    append-IsSound action now n logger writes sound =
        elim (Option-cases (p.to_string (entry_of p action now logger))) [
          | inl unwritten ↦
              rw (unwritten, append)
                (record {
                  apart = sound.apart;
                  chained = sound.chained;
                  count = omega (arith, sound.count);
                })
          | inr (json, serialized) ↦ rw (serialized, append, writes) (flushed json serialized)
        ]
      where
        flushed :
            (json : Text)
            → p.to_string (entry_of p action now logger) ≡ some json
            → IsSound
                (written_by (if now.flushes then appended else flush_failed) + n)
                (record logger {
                  writer = logger.writer ++ (json ++ 10 ∷ []);
                  last_hash = p.digest logger.hash_algorithm json;
                  sequence = (logger.sequence + 1) % 2 ^ 64;
                })
        flushed json serialized =
            subst
              (λ m. IsSound m (record logger {
                writer = logger.writer ++ (json ++ 10 ∷ []);
                last_hash = p.digest logger.hash_algorithm json;
                sequence = (logger.sequence + 1) % 2 ^ 64;
              }))
              (one now.flushes)
              (written-IsSound action now n logger sound json
                (serializes (entry_of p action now logger) json serialized)
                ((logger.sequence + 1) % 2 ^ 64))
          where
            one : (b : Bool) → suc n ≡ written_by (if b then appended else flush_failed) + n
            one true = omega arith
            one false = omega arith

  -- A sequence of appends, with the number of lines that they write.
  unfoldable pub append_all : List (A × Conditions) → AuditLogger → ℕ × AuditLogger
  append_all [] logger = (0, logger)
  append_all ((action, now) ∷ rest) logger =
      let (outcome, next) = append p action now logger in
      let (count, last) = append_all rest next in (written_by outcome + count, last)

  append_all-IsSound :
      (serializes : (e : AuditEntry A) (l : Text) → p.to_string e ≡ some l → IsJson p e l)
      (steps : List (A × Conditions)) (n : ℕ) (logger : AuditLogger)
      → All (λ s. s.1.writes ≡ true) steps
      → IsSound n logger
      → IsSound ((append_all steps logger).0 + n) (append_all steps logger).1
  unfolding append_all
  append_all-IsSound serializes [] n logger h sound =
      subst (λ m. IsSound m logger) (omega arith) sound
  append_all-IsSound serializes ((action, now) ∷ rest) n logger h sound =
      subst (λ m. IsSound m (append_all rest (append p action now logger).1).1) (omega arith)
        (append_all-IsSound serializes rest (written_by (append p action now logger).0 + n)
          (append p action now logger).1 h.1
          (append-IsSound serializes action now n logger h.0 sound))

  append_all-algorithm :
      (steps : List (A × Conditions)) (logger : AuditLogger)
      → (append_all steps logger).1.hash_algorithm ≡ logger.hash_algorithm
  unfolding append_all
  append_all-algorithm [] logger = refl
  append_all-algorithm ((action, now) ∷ rest) logger =
      append_all-algorithm rest (append p action now logger).1 ∙ append-algorithm
    where
      append-algorithm : (append p action now logger).1.hash_algorithm ≡ logger.hash_algorithm
      append-algorithm = unfold append in ground arith

new-IsSound :
    {A : Type 0} (p : Primitives A) (a : AuditHash) (agent : Option ℕ)
    → IsSound p 0 (new [] [] 0 a agent)
unfolding new str_lines
new-IsSound p a agent = record { apart = λ s. refl; chained = refl; count = refl }

-- If serde_json writes an entry as an object on one line that it reads back, then whatever a fresh
-- logger appends to a writer that does not fail verifies, with as many entries as lines were
-- written; appends that fail to serialize or to flush among them.
pub verify_chain-append_all :
    {A : Type 0} (p : Primitives A) (a : AuditHash) (agent : Option ℕ)
    → ((e : AuditEntry A) (l : Text) → p.to_string e ≡ some l → IsJson p e l)
    → (steps : List (A × Conditions)) → All (λ s. s.1.writes ≡ true) steps
    → verify_chain p (append_all p steps (new [] [] 0 a agent)).1.writer a
      ≡ verified (append_all p steps (new [] [] 0 a agent)).0
verify_chain-append_all p a agent serializes steps h =
    (verify_chain_iff p a log (append_all p steps fresh).0).1 (
      (
        (append_all p steps fresh).1.last_hash,
        subst (λ b. Leads p b [] (str_lines log) (append_all p steps fresh).1.last_hash)
            (append_all-algorithm p steps fresh ∙ unfold new in refl) sound.chained,
      ),
      omega (arith, sound.count),
    )
  where
    fresh : AuditLogger
    fresh = new [] [] 0 a agent

    log : Text
    log = (append_all p steps fresh).1.writer

    sound : IsSound p ((append_all p steps fresh).0 + 0) (append_all p steps fresh).1
    sound = append_all-IsSound p serializes steps 0 fresh h (new-IsSound p a agent)
