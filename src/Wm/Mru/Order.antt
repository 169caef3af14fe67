-- ===== src/Wm/Mru/Order.antt =====
-- `reorder` is a stable sort by the place in the stack.
use mathlib.Core.List.{Perm}
use mathlib.Core.List.Perm
use open_sesame.Prelude.{
  ℕ, ◌≤◌, ◌≡◌, refl, ap, ◌∙◌, true, false, Bool-cases, inl, inr, List, [], ◌∷◌, arith, leb, ◌==◌,
  if◌then◌else◌, retain, is_empty, All,
}
use open_sesame.Prelude.Text.{Text}
use open_sesame.Wm.Mru.{MruState, rank, insert_by, sort_by, reorder}

module _ {ℓ} {T : Type ℓ} (key : T → ℕ) where
  abbrev IsSortedBy : List T → Type 0
  IsSortedBy [] = Unit
  IsSortedBy (w ∷ ws) = All (λ v. key w ≤ key v) ws × IsSortedBy ws

  -- The elements with one key.
  abbrev class : ℕ → List T → List T
  class k = retain (λ w. key w == k)

  insert_by-perm : (w : T) (ws : List T) → Perm (insert_by key w ws) (w ∷ ws)
  unfolding insert_by
  insert_by-perm w [] = Perm.refl (w ∷ [])
  insert_by-perm w (v ∷ ws) = elim (Bool-cases (leb (key w) (key v))) [
    | inl first ↦ rw first (Perm.refl (w ∷ v ∷ ws))
    | inr later ↦ rw later (Perm.trans (Perm.cons v (insert_by-perm w ws)) (Perm.swap w v ws))
  ]

  sort_by-perm : (ws : List T) → Perm (sort_by key ws) ws
  unfolding sort_by
  sort_by-perm [] = Perm.refl []
  sort_by-perm (w ∷ ws) =
      Perm.trans (insert_by-perm w (sort_by key ws)) (Perm.cons w (sort_by-perm ws))

  All-insert_by :
      (n : ℕ) (w : T) (ws : List T)
      → n ≤ key w
      → All (λ v. n ≤ key v) ws
      → All (λ v. n ≤ key v) (insert_by key w ws)
  unfolding insert_by
  All-insert_by n w [] le h = (le, tt)
  All-insert_by n w (v ∷ ws) le h = elim (Bool-cases (leb (key w) (key v))) [
    | inl first ↦ rw first (le, h)
    | inr later ↦ rw later (h.0, All-insert_by n w ws le h.1)
  ]

  All-weaken : (m n : ℕ) (ws : List T) → m ≤ n → All (λ v. n ≤ key v) ws → All (λ v. m ≤ key v) ws
  All-weaken m n [] le h = tt
  All-weaken m n (w ∷ ws) le h = (omega arith, All-weaken m n ws le h.1)

  insert_by-IsSortedBy : (w : T) (ws : List T) → IsSortedBy ws → IsSortedBy (insert_by key w ws)
  unfolding insert_by
  insert_by-IsSortedBy w [] h = (tt, tt)
  insert_by-IsSortedBy w (v ∷ ws) h = elim (Bool-cases (leb (key w) (key v))) [
    | inl first ↦
        let le : key w ≤ key v = ground arith in
        rw first ((le, All-weaken (key w) (key v) ws le h.0), h)
    | inr later ↦
        let le : key v ≤ key w = ground arith in
        rw later (All-insert_by (key v) w ws le h.0, insert_by-IsSortedBy w ws h.1)
  ]

  sort_by-IsSortedBy : (ws : List T) → IsSortedBy (sort_by key ws)
  unfolding sort_by
  sort_by-IsSortedBy [] = tt
  sort_by-IsSortedBy (w ∷ ws) = insert_by-IsSortedBy w (sort_by key ws) (sort_by-IsSortedBy ws)

  class-insert_by : (k : ℕ) (w : T) (ws : List T) → class k (insert_by key w ws) ≡ class k (w ∷ ws)
  unfolding insert_by
  class-insert_by k w [] = refl
  class-insert_by k w (v ∷ ws) = ground (arith, class-insert_by k w ws)

  class-sort_by : (k : ℕ) (ws : List T) → class k (sort_by key ws) ≡ class k ws
  unfolding sort_by
  class-sort_by k [] = refl
  class-sort_by k (w ∷ ws) =
      class-insert_by k w (sort_by key ws)
      ∙ ap (λ (rest : List T). if key w == k then w ∷ rest else rest) (class-sort_by k ws)

-- What a reordering is: the same windows, in the order of their ranks, and those of one rank (the
-- windows outside the stack) in the order that they had.
record IsReordering {ℓ} {T : Type ℓ} (key : T → ℕ) (ws sorted : List T) : Type ℓ where
  pub same : Perm sorted ws
  pub in_order : IsSortedBy key sorted
  pub stable : (k : ℕ) → class key k sorted ≡ class key k ws

-- With a stack, `reorder` sorts the windows stably by their place in it, those outside it last; it
-- loses and adds none.
reorder-IsReordering {ℓ} :
    {T : Type ℓ} (windows : List T) (get_id : T → Text) (s : MruState)
    → is_empty s.stack ≡ false
    → IsReordering (λ w. rank s (get_id w)) windows (reorder windows get_id s)
unfolding reorder
reorder-IsReordering windows get_id s tracked = rw tracked (record {
  same = sort_by-perm (λ w. rank s (get_id w)) windows;
  in_order = sort_by-IsSortedBy (λ w. rank s (get_id w)) windows;
  stable = λ k. class-sort_by (λ w. rank s (get_id w)) k windows;
})

-- Without a stack, `reorder` leaves the windows in the compositor's order.
reorder-untracked {ℓ} :
    {T : Type ℓ} (windows : List T) (get_id : T → Text) (s : MruState)
    → is_empty s.stack ≡ true
    → reorder windows get_id s ≡ windows
unfolding reorder
reorder-untracked windows get_id s h = rw h
