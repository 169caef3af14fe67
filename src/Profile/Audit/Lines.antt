-- ===== src/Profile/Audit/Lines.antt =====
-- core-profile/src/audit.rs: the lines of the log, and the entries in them.
use open_sesame.Prelude.{
  ◌≡◌, ◌≢◌, refl, sym, ◌∙◌, ap, subst, inl, inr, false, Bool-cases, some, List, [], ◌∷◌, ◌++◌,
  arith, is_empty, first, All,
}
use open_sesame.Prelude.Text.{Text, trim, trim_start, trim_end, is_whitespace}
use open_sesame.Profile.Audit.{AuditEntry, Primitives, str_lines}
use open_sesame.Profile.Audit.Chain.{entries}

-- What the log relies on of serde_json: an entry is written as an object, which starts with a brace,
-- on one line, and is read back.
pub record IsJson {A : Type 0} (p : Primitives A) (e : AuditEntry A) (l : Text) : Type 0 where
  pub brace : first l ≡ some b'{'
  pub one_line : All (λ c. (c ≢ 10) × (c ≢ 13)) l
  pub read : p.from_str l ≡ some e

pub str_lines-feed :
    (l s : Text) → All (λ c. (c ≢ 10) × (c ≢ 13)) l → str_lines (l ++ 10 ∷ s) ≡ l ∷ str_lines s
unfolding str_lines
str_lines-feed [] s h = refl
str_lines-feed (c ∷ l) s h = ground (arith, str_lines-feed l s h.1)

brace_full : (l : Text) → is_empty (trim (b'{' ∷ l)) ≡ false
unfolding trim trim_start trim_end is_whitespace
brace_full l = elim (Bool-cases (is_empty (trim_end l))) [
  | inl blank ↦ rw (blank, trim_end) refl
  | inr full ↦ rw (full, trim_end) refl
]

pub brace-full : (l : Text) → first l ≡ some b'{' → is_empty (trim l) ≡ false
brace-full [] h = cc
brace-full (c ∷ l) h =
    let e : c ≡ b'{' = cc in subst (λ d. is_empty (trim (d ∷ l)) ≡ false) (sym e) (brace_full l)

entries-append : (ls ms : List Text) → entries (ls ++ ms) ≡ entries ls ++ entries ms
entries-append [] ms = refl
entries-append (l ∷ ls) ms = elim (Bool-cases (is_empty (trim l))) [
  | inl blank ↦ rw (blank, entries) (entries-append ls ms)
  | inr full ↦ rw (full, entries) (ap (λ es. l ∷ es) (entries-append ls ms))
]

pub entries-append_full :
    (ls : List Text) (l : Text)
    → is_empty (trim l) ≡ false
    → entries (ls ++ l ∷ []) ≡ entries ls ++ l ∷ []
entries-append_full ls l full =
    entries-append ls (l ∷ []) ∙ ap (λ es. entries ls ++ es) (rw (full, entries) refl)
