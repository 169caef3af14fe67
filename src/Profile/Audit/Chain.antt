-- ===== src/Profile/Audit/Chain.antt =====
-- The chain of hashes as a relation, and the verification against it.
use open_sesame.Prelude.{
  ℕ, suc, ◌+◌, ◌≡◌, refl, sym, ◌∙◌, ◌↔◌, ap, subst, inl, inr, true, false, Bool-cases, Option-cases,
  none, some, List, [], ◌∷◌, arith, is_empty, length,
}
use open_sesame.Prelude.Text.{Text, text_eq, text_eq_iff, trim}
use open_sesame.Profile.Audit.{
  AuditHash, AuditEntry, Primitives, verified, parse_error, chain_broken, verify_lines,
  verify_chain, str_lines,
}

-- The lines with an entry: those that are not blank.
abbrev pub entries : List Text → List Text
entries [] = []
entries (l ∷ ls) = elim (is_empty (trim l)) [ true ↦ entries ls | false ↦ l ∷ entries ls ]

module _ {A : Type 0} (p : Primitives A) (a : AuditHash) where
  -- A line that is read as an entry with the hash `h`.
  abbrev pub Follows : Text → Text → Type 0
  Follows h l = (e : AuditEntry A) × (p.from_str l ≡ some e) × (e.prev_hash ≡ h)

  -- The lines lead from the hash `h` to the hash `head`: each holds the hash before it.
  abbrev pub Chained : Text → List Text → Text → Type 0
  Chained h [] head = h ≡ head
  Chained h (l ∷ ls) head = Follows h l × Chained (p.digest a l) ls head

  abbrev pub Leads : Text → List Text → Text → Type 0
  Leads h ls head = Chained h (entries ls) head

  entries-blank :
      (l : Text) (ls : List Text) → is_empty (trim l) ≡ true → entries (l ∷ ls) ≡ entries ls
  entries-blank l ls blank = rw (blank, entries) refl

  entries-full :
      (l : Text) (ls : List Text) → is_empty (trim l) ≡ false → entries (l ∷ ls) ≡ l ∷ entries ls
  entries-full l ls full = rw (full, entries) refl

  module _ (line_num : ℕ) (h : Text) (count : ℕ) (l : Text) (ls : List Text) where
    verify_lines-blank :
        is_empty (trim l) ≡ true
        → verify_lines p a line_num h count (l ∷ ls) ≡ verify_lines p a (suc line_num) h count ls
    unfolding verify_lines
    verify_lines-blank blank = rw blank refl

    verify_lines-entry :
        is_empty (trim l) ≡ false
        → Follows h l
        → verify_lines p a line_num h count (l ∷ ls)
          ≡ verify_lines p a (suc line_num) (p.digest a l) (suc count) ls
    unfolding verify_lines
    verify_lines-entry full (e, read, same) =
        rw (full, read, (text_eq_iff e.prev_hash h).1 same) refl

    verify_lines-unread :
        is_empty (trim l) ≡ false
        → p.from_str l ≡ none
        → verify_lines p a line_num h count (l ∷ ls) ≡ parse_error (suc line_num)
    unfolding verify_lines
    verify_lines-unread full unread = rw (full, unread) refl

    verify_lines-broken :
        (e : AuditEntry A)
        → is_empty (trim l) ≡ false
        → p.from_str l ≡ some e
        → text_eq e.prev_hash h ≡ false
        → verify_lines p a line_num h count (l ∷ ls) ≡ chain_broken e.sequence h e.prev_hash
    unfolding verify_lines
    verify_lines-broken e full read other = rw (full, read, other) refl

    verify_lines-Follows :
        (n : ℕ)
        → is_empty (trim l) ≡ false
        → verify_lines p a line_num h count (l ∷ ls) ≡ verified n
        → Follows h l
    verify_lines-Follows n full v = elim (Option-cases (p.from_str l)) [
      | inl unread ↦ absurd (not_parsed unread v)
      | inr (e, read) ↦ elim (Bool-cases (text_eq e.prev_hash h)) [
        | inl same ↦ (e, read, (text_eq_iff e.prev_hash h).0 same)
        | inr other ↦ absurd (not_linked e read other v)
      ]
    ]
      where
        parse_error-ne : parse_error (suc line_num) ≡ verified n → ⊥
        parse_error-ne d = cc

        chain_broken-ne :
            (e : AuditEntry A) → chain_broken e.sequence h e.prev_hash ≡ verified n → ⊥
        chain_broken-ne e d = cc

        not_parsed :
            p.from_str l ≡ none → verify_lines p a line_num h count (l ∷ ls) ≡ verified n → ⊥
        not_parsed unread w = parse_error-ne (sym (verify_lines-unread full unread) ∙ w)

        not_linked :
            (e : AuditEntry A)
            → p.from_str l ≡ some e
            → text_eq e.prev_hash h ≡ false
            → verify_lines p a line_num h count (l ∷ ls) ≡ verified n
            → ⊥
        not_linked e read other w =
            chain_broken-ne e (sym (verify_lines-broken e full read other) ∙ w)

  abbrev Verifies : ℕ → Text → ℕ → List Text → ℕ → Type 0
  Verifies line_num h count ls n = verify_lines p a line_num h count ls ≡ verified n

  abbrev IsChain : Text → ℕ → List Text → ℕ → Type 0
  IsChain h count ls n = ((head : Text) × Chained h ls head) × (n ≡ count + length ls)

  verify_lines-IsChain :
      (line_num : ℕ) (h : Text) (count : ℕ) (ls : List Text) (n : ℕ)
      → Verifies line_num h count ls n
      → IsChain h count (entries ls) n
  verify_lines-IsChain line_num h count [] n v = ((h, refl), end v)
    where
      end : Verifies line_num h count [] n → n ≡ count + 0
      end w = unfold verify_lines in ground (arith, w)
  verify_lines-IsChain line_num h count (l ∷ ls) n v = elim (Bool-cases (is_empty (trim l))) [
    | inl blank ↦
        subst (λ es. IsChain h count es n) (sym (entries-blank l ls blank))
          (verify_lines-IsChain (suc line_num) h count ls n
            (sym (verify_lines-blank line_num h count l ls blank) ∙ v))
    | inr full ↦
        let follows = verify_lines-Follows line_num h count l ls n full v in
        let rest =
          verify_lines-IsChain (suc line_num) (p.digest a l) (suc count) ls n
            (sym (verify_lines-entry line_num h count l ls full follows) ∙ v) in
        subst (λ es. IsChain h count es n) (sym (entries-full l ls full))
          ((rest.0.0, (follows, rest.0.1)), omega (arith, rest.1))
  ]

  IsChain-verify_lines :
      (line_num : ℕ) (h : Text) (count : ℕ) (ls : List Text) (n : ℕ)
      → IsChain h count (entries ls) n
      → Verifies line_num h count ls n
  IsChain-verify_lines line_num h count [] n c =
      unfold verify_lines in ap verified (omega (arith, c.1))
  IsChain-verify_lines line_num h count (l ∷ ls) n c = elim (Bool-cases (is_empty (trim l))) [
    | inl blank ↦
        verify_lines-blank line_num h count l ls blank
        ∙ IsChain-verify_lines (suc line_num) h count ls n
            (subst (λ es. IsChain h count es n) (entries-blank l ls blank) c)
    | inr full ↦
        let d = subst (λ es. IsChain h count es n) (entries-full l ls full) c in
        verify_lines-entry line_num h count l ls full d.0.1.0
        ∙ IsChain-verify_lines (suc line_num) (p.digest a l) (suc count) ls n
            ((d.0.0, d.0.1.1), omega (arith, d.1))
  ]

-- A log verifies with the count `n` exactly when its lines that are not blank are a chain from the
-- empty hash, each read as an entry that holds the hash of the line before, and there are `n`.
pub verify_chain_iff :
    {A : Type 0} (p : Primitives A) (a : AuditHash) (log : Text) (n : ℕ)
    → (verify_chain p log a ≡ verified n) ↔ (
        ((head : Text) × Leads p a [] (str_lines log) head)
        × (n ≡ length (entries (str_lines log))))
unfolding verify_chain
verify_chain_iff p a log n = (
  λ v. let c = verify_lines-IsChain p a 0 [] 0 (str_lines log) n v in (c.0, omega (arith, c.1)),
  λ c. IsChain-verify_lines p a 0 [] 0 (str_lines log) n (c.0, omega (arith, c.1)),
)
