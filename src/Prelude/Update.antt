-- ===== src/Prelude/Update.antt =====
-- Maps that are changed in place: `get_mut`, `iter_mut` and `retain`.
use mathlib.Core.Path.{◌≡◌, refl, sym, ◌∙◌, ap}
use mathlib.Core.Logic.{inl, inr, ◌≢◌}
use mathlib.Core.Bool.{Bool}
use mathlib.Core.List.{[], ◌∷◌}
use mathlib.Core.Option
use mathlib.Core.Option.{Option, none, some}
use open_sesame.Prelude.Tests.{if◌then◌else◌, Bool-cases}
use open_sesame.Prelude.Maps.{
  Eq, Map, get, remove, get-remove, get-remove_ne, key-cases, beq-ne, beq_sound,
}

-- `Option::filter`.
abbrev pub filter {ℓ} : {A : Type ℓ} → (A → Bool) → Option A → Option A
filter p none = none
filter p (some a) = if p a then some a else none

module _ {ℓ κ} {K : Type ℓ} {V : Type κ} ⦃e : Eq K⦄ where
  -- A change through `get_mut`.
  unfoldable pub adjust : K → (V → V) → Map K V → Map K V
  adjust k f [] = []
  adjust k f ((j, v) ∷ m) = (if e.beq j k then (j, f v) else (j, v)) ∷ adjust k f m

  -- A change of every entry.
  unfoldable pub map_values : (K → V → V) → Map K V → Map K V
  map_values f [] = []
  map_values f ((j, v) ∷ m) = (j, f j v) ∷ map_values f m

  -- `HashMap::retain` by the value; a key that does not fulfil the test is gone.
  unfoldable pub retain_values : (V → Bool) → Map K V → Map K V
  retain_values p [] = []
  retain_values p ((j, v) ∷ m) =
      let rest = retain_values p m in if p v then (j, v) ∷ rest else remove j rest

  pub get-map_values :
      (f : K → V → V) (m : Map K V) (k : K) → get (map_values f m) k ≡ Option.map (f k) (get m k)
  unfolding get map_values
  get-map_values f [] k = refl
  get-map_values f ((j, v) ∷ m) k = elim (Bool-cases (e.beq j k)) [
    | inl same ↦ rw same (ap (λ i. some (f i v)) ((e.beq_iff j k).0 same))
    | inr other ↦ rw other (get-map_values f m k)
  ]

  pub get-adjust : (k : K) (f : V → V) (m : Map K V) → get (adjust k f m) k ≡ Option.map f (get m k)
  unfolding get adjust
  get-adjust k f [] = refl
  get-adjust k f ((j, v) ∷ m) = elim (Bool-cases (e.beq j k)) [
    | inl same ↦ rw same (rw same refl)
    | inr other ↦ rw other (rw other (get-adjust k f m))
  ]

  pub get-adjust_ne : (k j : K) (f : V → V) (m : Map K V) → k ≢ j → get (adjust k f m) j ≡ get m j
  unfolding get adjust
  get-adjust_ne k j f [] ne = refl
  get-adjust_ne k j f ((i, v) ∷ m) ne = elim (Bool-cases (e.beq i k)) [
    | inl same ↦
        rw (same, beq-ne i j (λ h. ne (sym (beq_sound i k same) ∙ h))) (get-adjust_ne k j f m ne)
    | inr other ↦ rw (other, get-adjust_ne k j f m ne) refl
  ]

  pub get-retain_values :
      (p : V → Bool) (m : Map K V) (k : K) → get (retain_values p m) k ≡ filter p (get m k)
  unfolding get retain_values
  get-retain_values p [] k = refl
  get-retain_values p ((j, v) ∷ m) k = elim (key-cases j k) [
    | inl same ↦ elim (Bool-cases (p v)) [
      | inl kept ↦ rw (kept, (e.beq_iff j k).1 same, kept) refl
      | inr dropped ↦
          rw (dropped, (e.beq_iff j k).1 same, dropped)
            (ap (get (remove j (retain_values p m))) (sym same) ∙ get-remove j (retain_values p m))
    ]
    | inr other ↦ elim (Bool-cases (p v)) [
      | inl kept ↦ rw (kept, beq-ne j k other) (get-retain_values p m k)
      | inr dropped ↦
          rw (dropped, beq-ne j k other)
            (get-remove_ne j k (retain_values p m) other ∙ get-retain_values p m k)
    ]
  ]

  pub get-adjust_if :
      (k j : K) (f : V → V) (m : Map K V)
      → get (adjust k f m) j ≡ (if e.beq k j then Option.map f (get m j) else get m j)
  get-adjust_if k j f m = elim (key-cases k j) [
    | inl same ↦ rw ((e.beq_iff k j).1 same) (
        ap (get (adjust k f m)) (sym same)
        ∙ (get-adjust k f m ∙ ap (λ i. Option.map f (get m i)) same))
    | inr other ↦ rw (beq-ne k j other) (get-adjust_ne k j f m other)
  ]
