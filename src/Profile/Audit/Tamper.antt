-- ===== src/Profile/Audit/Tamper.antt =====
-- The last hash of a log determines the log.
use mathlib.Core.List.{reverse, reverse_aux, reverse-reverse}
use open_sesame.Prelude.{ℕ, ◌≡◌, refl, sym, ◌∙◌, ap, subst, ◌≢◌, some, List, [], ◌∷◌}
use open_sesame.Prelude.Text.{Text}
use open_sesame.Profile.Audit.{AuditHash, AuditEntry, Primitives, verified, verify_chain, str_lines}
use open_sesame.Profile.Audit.Chain.{entries, Follows, Chained, verify_chain_iff}

-- No two texts have the same digest, and none has the empty one.
pub record IsCollisionFree {A : Type 0} (p : Primitives A) (a : AuditHash) : Type 0 where
  pub injective : (s t : Text) → p.digest a s ≡ p.digest a t → s ≡ t
  pub filled : (s : Text) → p.digest a s ≢ []

module _ {A : Type 0} (p : Primitives A) (a : AuditHash) (free : IsCollisionFree p a) where
  -- A chain from the empty hash, its last line first.
  Back : List Text → Text → Type 0
  Back [] head = head ≡ []
  Back (l ∷ ls) head = (p.digest a l ≡ head) × ((h : Text) × Follows p a h l × Back ls h)

  Back-unique : (ls ms : List Text) (head : Text) → Back ls head → Back ms head → ls ≡ ms
  unfolding Back
  Back-unique [] [] head b c = refl
  Back-unique [] (m ∷ ms) head b c = absurd (free.filled m (c.0 ∙ b))
  Back-unique (l ∷ ls) [] head b c = absurd (free.filled l (b.0 ∙ c))
  Back-unique (l ∷ ls) (m ∷ ms) head (hl, (h, (e, e_read, e_hash), b))
        (hm, (k, (f, f_read, f_hash), c)) =
      let same : l ≡ m = free.injective l m (hl ∙ sym hm) in
      let entry : e ≡ f = some-inj e f (sym e_read ∙ (ap p.from_str same ∙ f_read)) in
      let hash : k ≡ h = sym f_hash ∙ (ap (λ g. g.prev_hash) (sym entry) ∙ e_hash) in
      joined same (Back-unique ls ms h b (subst (Back ms) hash c))
    where
      some-inj : (g i : AuditEntry A) → some g ≡ some i → g ≡ i
      some-inj g i d = cc

      joined : l ≡ m → ls ≡ ms → l ∷ ls ≡ m ∷ ms
      joined d d' = cc

  -- Reading a chain turns it round.
  Chained-Back :
      (h : Text) (ls acc : List Text) (head : Text)
      → Chained p a h ls head
      → Back acc h
      → Back (reverse_aux ls acc) head
  unfolding Back
  Chained-Back h [] acc head c b = subst (Back acc) c b
  Chained-Back h (l ∷ ls) acc head c b =
      Chained-Back (p.digest a l) ls (l ∷ acc) head c.1 (refl, (h, c.0, b))

  Chained-unique :
      (ls ms : List Text) (head : Text) → Chained p a [] ls head → Chained p a [] ms head → ls ≡ ms
  unfolding Back
  Chained-unique ls ms head c d =
      sym (reverse-reverse ls)
      ∙ (ap reverse (
            Back-unique (reverse ls) (reverse ms) head (Chained-Back [] ls [] head c refl)
              (Chained-Back [] ms [] head d refl))
          ∙ reverse-reverse ms)

-- The digest of the last line that is not blank, as a logger goes on from it.
abbrev head_from : {A : Type 0} → Primitives A → AuditHash → Text → List Text → Text
head_from p a h [] = h
head_from p a h (l ∷ ls) = head_from p a (p.digest a l) ls

abbrev head_hash : {A : Type 0} → Primitives A → AuditHash → Text → Text
head_hash p a log = head_from p a [] (entries (str_lines log))

Chained-head_from :
    {A : Type 0} (p : Primitives A) (a : AuditHash) (h : Text) (ls : List Text) (head : Text)
    → Chained p a h ls head
    → head ≡ head_from p a h ls
Chained-head_from p a h [] head c = sym c
Chained-head_from p a h (l ∷ ls) head c = Chained-head_from p a (p.digest a l) ls head c.1

-- With a hash function that is free of collisions and never empty, two logs that both verify and
-- have the same last hash have the same lines, blank ones aside: no entry can be changed, dropped,
-- added or moved without a change of the last hash.
pub verify_chain_unique :
    {A : Type 0} (p : Primitives A) (a : AuditHash)
    → IsCollisionFree p a
    → (log other : Text) (n m : ℕ) → verify_chain p log a ≡ verified n
    → verify_chain p other a ≡ verified m
    → head_hash p a log ≡ head_hash p a other
    → entries (str_lines log) ≡ entries (str_lines other)
verify_chain_unique p a free log other n m v w same =
    let c = ((verify_chain_iff p a log n).0 v).0 in
    let d = ((verify_chain_iff p a other m).0 w).0 in
    let es = entries (str_lines log) in
    let fs = entries (str_lines other) in
    Chained-unique p a free es fs d.0
      (subst (Chained p a [] es)
        (Chained-head_from p a [] es c.0 c.1 ∙ (same ∙ sym (Chained-head_from p a [] fs d.0 d.1)))
        c.1)
      d.1
