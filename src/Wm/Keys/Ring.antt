-- ===== src/Wm/Keys/Ring.antt =====
-- How long an accepted key keeps its repetitions out.
use open_sesame.Prelude.{
  ℕ, zero, suc, ◌+◌, ◌-◌, ◌/◌, ◌%◌, ◌≡◌, ◌≢◌, ◌≤◌, ◌<◌, refl, sym, ◌∙◌, ap, subst, inl, inr, Bool,
  true, false, Bool-cases, some, List, [], ◌∷◌, arith, lt→ltb, ==_iff, ◌||◌, any, length, get_elem?,
}
use open_sesame.Wm.Keys.{KeyEvent, KeyDeduplicator, repeats, same_state, set_elem, accept}

-- The ring has eight places, and the index is one of them.
pub record IsRing (d : KeyDeduplicator) : Type 0 where
  pub places : length d.recent ≡ 8
  pub in_range : d.idx < 8

length-set_elem : {A : Type 0} (i : ℕ) (a : A) (xs : List A) → length (set_elem i a xs) ≡ length xs
unfolding set_elem
length-set_elem i a [] = refl
length-set_elem zero a (x ∷ xs) = refl
length-set_elem (suc i) a (x ∷ xs) = ap suc (length-set_elem i a xs)

get_elem?-set_elem :
    {A : Type 0} (i : ℕ) (a : A) (xs : List A)
    → i < length xs
    → get_elem? (set_elem i a xs) i ≡ some a
unfolding set_elem
get_elem?-set_elem i a [] h = absurd (omega (arith, h))
get_elem?-set_elem zero a (x ∷ xs) h = refl
get_elem?-set_elem (suc i) a (x ∷ xs) h = get_elem?-set_elem i a xs (omega (arith, h))

get_elem?-set_elem_ne :
    {A : Type 0} (i j : ℕ) (a : A) (xs : List A)
    → i ≢ j
    → get_elem? (set_elem i a xs) j ≡ get_elem? xs j
unfolding set_elem
get_elem?-set_elem_ne i j a [] h = refl
get_elem?-set_elem_ne zero zero a (x ∷ xs) h = absurd (h refl)
get_elem?-set_elem_ne zero (suc j) a (x ∷ xs) h = refl
get_elem?-set_elem_ne (suc i) zero a (x ∷ xs) h = refl
get_elem?-set_elem_ne (suc i) (suc j) a (x ∷ xs) h =
    get_elem?-set_elem_ne i j a xs (λ e. h (ap suc e))

any-get_elem? :
    {A : Type 0} (p : A → Bool) (xs : List A) (i : ℕ) (a : A)
    → get_elem? xs i ≡ some a
    → p a ≡ true
    → any p xs ≡ true
any-get_elem? p [] i a h q = cc
any-get_elem? p (x ∷ xs) zero a h q = let e : x ≡ a = cc in rw (ap p e ∙ q) refl
any-get_elem? p (x ∷ xs) (suc i) a h q = behind (p x) (any-get_elem? p xs i a h q)
  where
    behind : (b : Bool) {c : Bool} → c ≡ true → b || c ≡ true
    behind true e = refl
    behind false e = e

accept-refused :
    (e : KeyEvent) (d : KeyDeduplicator) → any (repeats e) d.recent ≡ true → accept e d ≡ (false, d)
unfolding accept
accept-refused e d h = rw (h, accept) refl

accept-taken :
    (e : KeyEvent) (d : KeyDeduplicator)
    → any (repeats e) d.recent ≡ false
    → accept e d ≡ (true, record { recent = set_elem d.idx e d.recent; idx = (d.idx + 1) % 8 })
unfolding accept
accept-taken e d h = rw (h, accept) refl

abbrev bit : Bool → ℕ
bit true = 1
bit false = 0

-- A sequence of events, with the number of those that are accepted.
unfoldable pub accept_all : List KeyEvent → KeyDeduplicator → ℕ × KeyDeduplicator
accept_all [] d = (0, d)
accept_all (e ∷ es) d =
    let (taken, next) = accept e d in
    let (count, last) = accept_all es next in (bit taken + count, last)

-- The event stands at the place `i` of the ring, and `n` more were written behind it.
record Kept (e : KeyEvent) (i n : ℕ) (d : KeyDeduplicator) : Type 0 where
  ring : IsRing d
  place : i < 8
  kept : get_elem? d.recent i ≡ some e
  index : d.idx ≡ (i + 1 + n) % 8

accept-Kept :
    (e f : KeyEvent) (i n : ℕ) (d : KeyDeduplicator)
    → bit (accept f d).0 + n ≤ 7
    → Kept e i n d
    → Kept e i (bit (accept f d).0 + n) (accept f d).1
accept-Kept e f i n d few k = elim (Bool-cases (any (repeats f) d.recent)) [
  | inl old ↦
      subst (λ r. Kept e i (bit r.0 + n) r.1) (sym (accept-refused f d old))
        (subst (λ m. Kept e i m d) (omega arith) k)
  | inr fresh ↦
      let eq = accept-taken f d fresh in
      subst (λ r. Kept e i (bit r.0 + n) r.1) (sym eq)
        (written (subst (λ r. bit r.0 + n ≤ 7) eq few))
]
  where
    written :
        1 + n ≤ 7
        → Kept e i (1 + n) (record { recent = set_elem d.idx f d.recent; idx = (d.idx + 1) % 8 })
    written small = record {
      ring = record {
        places = length-set_elem d.idx f d.recent ∙ k.ring.places;
        in_range = omega arith;
      };
      place = k.place;
      kept =
          get_elem?-set_elem_ne d.idx i f d.recent (λ h. omega (arith, h, k.index, k.place, small))
          ∙ k.kept;
      index = omega (arith, k.index, k.place, small);
    }

accept_all-Kept :
    (e : KeyEvent) (fs : List KeyEvent) (i n : ℕ) (d : KeyDeduplicator)
    → (accept_all fs d).0 + n ≤ 7
    → Kept e i n d
    → (m : ℕ) × Kept e i m (accept_all fs d).1
unfolding accept_all
accept_all-Kept e [] i n d few k = (n, k)
accept_all-Kept e (f ∷ fs) i n d few k =
    accept_all-Kept e fs i (bit (accept f d).0 + n) (accept f d).1 (omega (arith, few))
      (accept-Kept e f i n d (omega (arith, few)) k)

accepted-Kept :
    (e : KeyEvent) (d : KeyDeduplicator)
    → IsRing d
    → (accept e d).0 ≡ true
    → Kept e d.idx 0 (accept e d).1
accepted-Kept e d r h = elim (Bool-cases (any (repeats e) d.recent)) [
  | inl old ↦ absurd (false-ne-true (sym (ap (λ s. s.0) (accept-refused e d old)) ∙ h))
  | inr fresh ↦
      subst (λ s. Kept e d.idx 0 s.1) (sym (accept-taken e d fresh))
        (record {
          ring = record {
            places = length-set_elem d.idx e d.recent ∙ r.places;
            in_range = omega arith;
          };
          place = r.in_range;
          kept = get_elem?-set_elem d.idx e d.recent (omega (arith, r.in_range, r.places));
          index = omega arith;
        })
]
  where
    false-ne-true : false ≡ true → ⊥
    false-ne-true d = cc

repeats-same :
    (k : ℕ) (b : Bool) (t u : ℕ)
    → (u - t) / 1000000 < 50
    → repeats
        (record { keyval = k; pressed = b; time = u })
        (record { keyval = k; pressed = b; time = t })
      ≡ true
repeats-same k b t u soon =
    rw ((==_iff k k).1 refl, same b, lt→ltb ((u - t) / 1000000) 50 soon) refl
  where
    same : (c : Bool) → same_state c c ≡ true
    same true = refl
    same false = refl

-- When a key has been accepted, the same key in the same state is refused for 50 ms, whatever comes
-- in between, as long as no more than seven other events are accepted.
accept-repeated :
    (k : ℕ) (b : Bool) (t u : ℕ) (fs : List KeyEvent) (d : KeyDeduplicator)
    → IsRing d
    → (accept (record { keyval = k; pressed = b; time = t }) d).0 ≡ true
    → (accept_all fs (accept (record { keyval = k; pressed = b; time = t }) d).1).0 ≤ 7
    → (u - t) / 1000000 < 50
    → (accept
        (record { keyval = k; pressed = b; time = u })
        (accept_all fs (accept (record { keyval = k; pressed = b; time = t }) d).1).1).0
      ≡ false
accept-repeated k b t u fs d r taken few soon =
    ap (λ s. s.0)
      (accept-refused again last (
        any-get_elem? (repeats again) last.recent d.idx first_event held.1.kept
          (repeats-same k b t u soon)))
  where
    first_event : KeyEvent
    first_event = record { keyval = k; pressed = b; time = t }

    again : KeyEvent
    again = record { keyval = k; pressed = b; time = u }

    last : KeyDeduplicator
    last = (accept_all fs (accept first_event d).1).1

    held : (m : ℕ) × Kept first_event d.idx m last
    held =
        accept_all-Kept first_event fs d.idx 0 (accept first_event d).1 (omega (arith, few))
          (accepted-Kept first_event d r taken)
