-- ===== src/Wm/Hints/Assign.antt =====
-- The hints that the windows get, against a description without groups and sorting.
use native.Mathlib.Nat.{zero-add, add-zero, add-suc, suc-add}
use open_sesame.Prelude.{
  ℕ, suc, ◌+◌, ◌<◌, ◌≡◌, ◌≢◌, refl, sym, ap, List, [], ◌∷◌, ◌++◌, map, arith, ◌==◌, if◌then◌else◌,
  length, replicate, length-replicate, Bool-cases, ==_iff, inl, inr, All, All-append, All-map,
  length-map, length-append,
}
use mathlib.Core.List.{append-nil, append_assoc}
use open_sesame.Prelude.Text.{Text, Unicode}
use open_sesame.Wm.Config.{KeyBindings}
use open_sesame.Wm.Hints.{
  Groups, Hint, push_index, group_keys, group_hints, all_hints, insert_by_index, sort_by_index,
  app_keys, assign_app_hints,
}

-- How often a key stands in a list.
abbrev pub count : ℕ → List ℕ → ℕ
count k [] = 0
count k (j ∷ js) = if j == k then suc (count k js) else count k js

-- A window's hint is its key, once more than the windows before it have the key.
abbrev hints_after : List ℕ → ℕ → List ℕ → List Hint
hints_after earlier i [] = []
hints_after earlier i (k ∷ ks) =
    (replicate (suc (count k earlier)) k, i) ∷ hints_after (k ∷ earlier) (suc i) ks

abbrev group_size : ℕ → Groups → ℕ
group_size key [] = 0
group_size key ((k, is) ∷ groups) = if k == key then length is else group_size key groups

abbrev Below : ℕ → List Hint → Type 0
Below i = All (λ h. h.1 < i)

Below-insert :
    (i : ℕ) (h : Hint) (l : List Hint) → h.1 < i → Below i l → Below i (insert_by_index h l)
unfolding insert_by_index
Below-insert i h [] lt b = (lt, tt)
Below-insert i h (g ∷ l) lt b = ground (arith, Below-insert i h l)

Below-sort : (i : ℕ) (l : List Hint) → Below i l → Below i (sort_by_index l)
unfolding sort_by_index
Below-sort i [] b = tt
Below-sort i (h ∷ l) b = Below-insert i h (sort_by_index l) b.0 (Below-sort i l b.1)

insert-last : (e : Hint) (l : List Hint) → Below e.1 l → insert_by_index e l ≡ l ++ e ∷ []
unfolding insert_by_index
insert-last e [] b = refl
insert-last e (g ∷ l) b = ground (arith, insert-last e l)

insert-append :
    (h e : Hint) (l : List Hint)
    → h.1 < e.1
    → insert_by_index h (l ++ e ∷ []) ≡ insert_by_index h l ++ e ∷ []
unfolding insert_by_index
insert-append h e [] lt = ground arith
insert-append h e (g ∷ l) lt = ground (arith, insert-append h e l)

-- A hint with the greatest index goes last, wherever it stood.
sort-middle :
    (e : Hint) (xs ys zs : List Hint)
    → Below e.1 xs
    → sort_by_index ys ≡ sort_by_index zs ++ e ∷ []
    → sort_by_index (xs ++ ys) ≡ sort_by_index (xs ++ zs) ++ e ∷ []
unfolding sort_by_index
sort-middle e [] ys zs b h = h
sort-middle e (x ∷ xs) ys zs b h =
    rw (sort-middle e xs ys zs b.1 h) (insert-append x e (sort_by_index (xs ++ zs)) b.0)

sort-last :
    (e : Hint) (xs : List Hint) → Below e.1 xs → sort_by_index (e ∷ xs) ≡ sort_by_index xs ++ e ∷ []
unfolding sort_by_index
sort-last e xs b = insert-last e (sort_by_index xs) (Below-sort e.1 xs b)

group_hints-append :
    (base n i : ℕ) (is : List ℕ)
    → group_hints base n (is ++ i ∷ [])
      ≡ group_hints base n is ++ (replicate (suc (n + length is)) base, i) ∷ []
unfolding group_hints
group_hints-append base n i [] = rw add-zero
group_hints-append base n i (j ∷ is) = rw (group_hints-append base (suc n) i is, suc-add, add-suc)

Below-left : (i : ℕ) (xs ys : List Hint) → Below i (xs ++ ys) → Below i xs
Below-left i [] ys b = tt
Below-left i (x ∷ xs) ys b = (b.0, Below-left i xs ys b.1)

Below-right : (i : ℕ) (xs ys : List Hint) → Below i (xs ++ ys) → Below i ys
Below-right i [] ys b = b
Below-right i (x ∷ xs) ys b = Below-right i xs ys b.1

-- One more window: its hint goes behind the hints that were there.
sort-push_index :
    (key i : ℕ) (groups : Groups)
    → Below i (all_hints groups)
    → sort_by_index (all_hints (push_index key i groups))
      ≡ sort_by_index (all_hints groups) ++ (replicate (suc (group_size key groups)) key, i) ∷ []
unfolding push_index all_hints group_hints sort_by_index insert_by_index
sort-push_index key i [] b = refl
sort-push_index key i ((k, is) ∷ groups) b =
    let grouped = group_hints k 0 is in
    let others = all_hints groups in
    let low = Below-left i grouped others b in
    let low_others = Below-right i grouped others b in
    elim (Bool-cases (k == key)) [
      | inl same ↦
          let e : k ≡ key = (==_iff k key).0 same in
          let last : Hint = (replicate (suc (length is)) k, i) in
          rw (same, group_hints-append k 0 i is, append_assoc, zero-add, ← e)
            (sort-middle last grouped (last ∷ others) others low (sort-last last others low_others))
      | inr other ↦ rw other (
          sort-middle (replicate (suc (group_size key groups)) key, i) grouped
            (all_hints (push_index key i groups)) others low
            (sort-push_index key i groups low_others))
    ]

Below-suc : (i : ℕ) (l : List Hint) → Below i l → Below (suc i) l
Below-suc i l = All-map (λ h. h.1 < i) (λ h. h.1 < suc i) l (λ h lt. omega arith)

Below-push_index :
    (key i : ℕ) (groups : Groups)
    → Below i (all_hints groups)
    → Below (suc i) (all_hints (push_index key i groups))
unfolding push_index all_hints group_hints
Below-push_index key i [] b = omega arith
Below-push_index key i ((k, is) ∷ groups) b =
    let grouped = group_hints k 0 is in
    let others = all_hints groups in
    let low = Below-suc i grouped (Below-left i grouped others b) in
    let low_others = Below-right i grouped others b in
    elim (Bool-cases (k == key)) [
      | inl same ↦
          rw (same, group_hints-append k 0 i is)
            (All-append (λ h. h.1 < suc i) (grouped ++ (replicate (suc (0 + length is)) k, i) ∷ [])
              others
              (All-append (λ h. h.1 < suc i) grouped ((replicate (suc (0 + length is)) k, i) ∷ [])
                low (omega arith))
              (Below-suc i others low_others))
      | inr other ↦ rw other (
          All-append (λ h. h.1 < suc i) grouped (all_hints (push_index key i groups)) low
            (Below-push_index key i groups low_others))
    ]

group_size-push_index :
    (key i k : ℕ) (groups : Groups)
    → group_size k (push_index key i groups)
      ≡ (if key == k then suc (group_size k groups) else group_size k groups)
unfolding push_index
group_size-push_index key i k [] = ground arith
group_size-push_index key i k ((j, is) ∷ groups) =
    ground (arith, group_size-push_index key i k groups, length-append is (i ∷ []))

-- The loop over the windows, from a state in which the earlier ones are grouped.
sort-group_keys :
    (keys earlier : List ℕ) (i : ℕ) (groups : Groups)
    → Below i (all_hints groups)
    → ((k : ℕ) → group_size k groups ≡ count k earlier)
    → sort_by_index (all_hints (group_keys i keys groups))
      ≡ sort_by_index (all_hints groups) ++ hints_after earlier i keys
unfolding group_keys
sort-group_keys [] earlier i groups b sizes = sym (append-nil _)
sort-group_keys (key ∷ keys) earlier i groups b sizes = rw (
  sort-group_keys keys (key ∷ earlier) (suc i) (push_index key i groups)
      (Below-push_index key i groups b)
      (λ k. ground (arith, sizes k, group_size-push_index key i k groups)),
  sort-push_index key i groups b,
  append_assoc,
  sizes key,
)

module _ (u : Unicode) where
  -- The hints are in the order of the windows, one for each: a window's hint is its key, repeated
  -- once more than there are windows before it with the same key.
  assign_app_hints_lem :
      (app_ids : List Text) (bindings : KeyBindings)
      → assign_app_hints u app_ids bindings ≡ hints_after [] 0 (app_keys u bindings app_ids)
  unfolding assign_app_hints all_hints sort_by_index
  assign_app_hints_lem app_ids bindings =
      sort-group_keys (app_keys u bindings app_ids) [] 0 [] tt (λ k. refl)

length-hints_after :
    (earlier : List ℕ) (i : ℕ) (keys : List ℕ) → length (hints_after earlier i keys) ≡ length keys
length-hints_after earlier i [] = refl
length-hints_after earlier i (k ∷ keys) = ap suc (length-hints_after (k ∷ earlier) (suc i) keys)

pub length-assign_app_hints :
    (u : Unicode) (app_ids : List Text) (bindings : KeyBindings)
    → length (assign_app_hints u app_ids bindings) ≡ length app_ids
unfolding app_keys
length-assign_app_hints u app_ids bindings =
    rw (assign_app_hints_lem, length-hints_after, length-map)

-- No two texts of the list are the same.
abbrev pub Distinct : List Text → Type 0
Distinct [] = Unit
Distinct (t ∷ ts) = All (λ s. s ≢ t) ts × Distinct ts

replicate-injective : (m n j k : ℕ) → replicate (suc m) j ≡ replicate (suc n) k → (j ≡ k) × (m ≡ n)
replicate-injective m n j k e =
    (cc, omega (arith, ap length e, length-replicate (suc m) j, length-replicate (suc n) k))

-- A text shorter than a key's next hint is not given out again.
hints_after-ne :
    (k n : ℕ) (earlier : List ℕ) (i : ℕ) (keys : List ℕ)
    → n < count k earlier
    → All (λ s. s ≢ replicate (suc n) k) (map (λ h. h.0) (hints_after earlier i keys))
hints_after-ne k n earlier i [] lt = tt
hints_after-ne k n earlier i (j ∷ keys) lt = (
  λ e.
      let same = replicate-injective (count j earlier) n j k e in
      let size : count j earlier ≡ count k earlier = ap (λ l. count l earlier) same.0 in
      omega arith,
  hints_after-ne k n (j ∷ earlier) (suc i) keys (ground arith),
)

Distinct-hints_after :
    (earlier : List ℕ) (i : ℕ) (keys : List ℕ)
    → Distinct (map (λ h. h.0) (hints_after earlier i keys))
Distinct-hints_after earlier i [] = tt
Distinct-hints_after earlier i (k ∷ keys) = (
  hints_after-ne k (count k earlier) (k ∷ earlier) (suc i) keys (ground arith),
  Distinct-hints_after (k ∷ earlier) (suc i) keys,
)

-- Every window has a hint of its own.
Distinct-assign_app_hints :
    (u : Unicode) (app_ids : List Text) (bindings : KeyBindings)
    → Distinct (map (λ h. h.0) (assign_app_hints u app_ids bindings))
Distinct-assign_app_hints u app_ids bindings =
    rw assign_app_hints_lem (Distinct-hints_after [] 0 (app_keys u bindings app_ids))
