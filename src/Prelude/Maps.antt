-- ===== src/Prelude/Maps.antt =====
-- Maps of the standard library: `HashMap` and `BTreeMap` as association lists, read by `get` only.
use mathlib.Core.Path.{◌≡◌, refl, sym, ◌∙◌, ap}
use mathlib.Core.Logic.{◌↔◌, ◌≢◌, ◌⊎◌, inl, inr}
use mathlib.Core.Bool.{Bool, true, false}
use mathlib.Core.List.{List, [], ◌∷◌}
use mathlib.Core.Option.{Option, none, some}
use Prim.Native.Nat.{ℕ}
use open_sesame.Prelude.Tests.{if◌then◌else◌, Bool-cases, ◌==◌, ==_iff}
use open_sesame.Prelude.Text.{Text, text_eq, text_eq_iff}

-- Equality of keys, with its law.
pub record Eq {ℓ} (A : Type ℓ) : Type ℓ where
  pub beq : A → A → Bool
  pub beq_iff : (a b : A) → (beq a b ≡ true) ↔ (a ≡ b)

instance abbrev pub nat_eq : Eq ℕ
nat_eq = record { beq = ◌==◌; beq_iff = ==_iff }

instance abbrev pub list_eq : Eq Text
list_eq = record { beq = text_eq; beq_iff = text_eq_iff }

abbrev pub Map {ℓ κ} : Type ℓ → Type κ → Type (ℓ ⊔ κ)
Map K V = List (K × V)

module _ {ℓ} {K : Type ℓ} ⦃e : Eq K⦄ where
  beq_refl : (k : K) → e.beq k k ≡ true
  beq_refl k = (e.beq_iff k k).1 refl

  pub beq_sound : (j k : K) → e.beq j k ≡ true → j ≡ k
  beq_sound j k = (e.beq_iff j k).0

  pub beq-ne : (j k : K) → j ≢ k → e.beq j k ≡ false
  beq-ne j k ne = elim (Bool-cases (e.beq j k)) [
    | inl same ↦ absurd (ne (beq_sound j k same))
    | inr other ↦ other
  ]

module _ {ℓ κ} {K : Type ℓ} {V : Type κ} ⦃e : Eq K⦄ where
  unfoldable pub get : Map K V → K → Option V
  get [] k = none
  get ((j, v) ∷ m) k = if e.beq j k then some v else get m k

  unfoldable pub remove : K → Map K V → Map K V
  remove k [] = []
  remove k ((j, v) ∷ m) = let rest = remove k m in if e.beq j k then rest else (j, v) ∷ rest

  unfoldable pub insert : K → V → Map K V → Map K V
  unfolding remove
  insert k v m = (k, v) ∷ remove k m

  pub get-remove : (k : K) (m : Map K V) → get (remove k m) k ≡ none
  unfolding get remove
  get-remove k [] = refl
  get-remove k ((j, v) ∷ m) = elim (Bool-cases (e.beq j k)) [
    | inl same ↦ rw same (get-remove k m)
    | inr other ↦ rw (other, other) (get-remove k m)
  ]

  pub get-remove_ne : (k j : K) (m : Map K V) → k ≢ j → get (remove k m) j ≡ get m j
  unfolding get remove
  get-remove_ne k j [] ne = refl
  get-remove_ne k j ((i, v) ∷ m) ne = elim (Bool-cases (e.beq i k)) [
    | inl same ↦
        rw (same, beq-ne i j (λ h. ne (sym (beq_sound i k same) ∙ h))) (get-remove_ne k j m ne)
    | inr other ↦ rw (other, get-remove_ne k j m ne) refl
  ]

  pub get-insert : (k : K) (v : V) (m : Map K V) → get (insert k v m) k ≡ some v
  unfolding get insert
  get-insert k v m = rw (beq_refl k) refl

  pub get-insert_ne : (k j : K) (v : V) (m : Map K V) → k ≢ j → get (insert k v m) j ≡ get m j
  unfolding get insert
  get-insert_ne k j v m ne = rw (beq-ne k j ne) (get-remove_ne k j m ne)

module _ {ℓ} {K : Type ℓ} ⦃e : Eq K⦄ where
  pub key-cases : (j k : K) → (j ≡ k) ⊎ (j ≢ k)
  key-cases j k = elim (Bool-cases (e.beq j k)) [
    | inl same ↦ inl (beq_sound j k same)
    | inr other ↦ inr (λ h. differ (sym other ∙ (e.beq_iff j k).1 h))
  ]
    where
      differ : false ≡ true → ⊥
      differ d = cc

module _ {ℓ κ} {K : Type ℓ} {V : Type κ} ⦃e : Eq K⦄ where
  -- The entries of a map without a key, and of one with a key set.
  pub get-remove_iff :
      (k j : K) (m : Map K V) (v : V)
      → (get (remove k m) j ≡ some v) ↔ ((k ≢ j) × (get m j ≡ some v))
  get-remove_iff k j m v = elim (key-cases k j) [
    | inl same ↦ (
      λ h. absurd (none-ne-some (sym (get-remove k m) ∙ (ap (get (remove k m)) same ∙ h))),
      λ h. absurd (h.0 same),
    )
    | inr other ↦
        (λ h. (other, sym (get-remove_ne k j m other) ∙ h), λ h. get-remove_ne k j m other ∙ h.1)
  ]
    where
      none-ne-some : none ≡ some v → ⊥
      none-ne-some d = cc

  pub get-insert_iff :
      (k j : K) (v : V) (m : Map K V) (w : V)
      → (get (insert k v m) j ≡ some w) ↔ (((k ≡ j) × (v ≡ w)) ⊎ ((k ≢ j) × (get m j ≡ some w)))
  get-insert_iff k j v m w = (split (key-cases k j), join)
    where
      inj : some v ≡ some w → v ≡ w
      inj d = cc

      split :
          (k ≡ j) ⊎ (k ≢ j)
          → get (insert k v m) j ≡ some w
          → ((k ≡ j) × (v ≡ w)) ⊎ ((k ≢ j) × (get m j ≡ some w))
      split (inl same) h =
          inl (same, inj (sym (get-insert k v m) ∙ (ap (get (insert k v m)) same ∙ h)))
      split (inr other) h = inr (other, sym (get-insert_ne k j v m other) ∙ h)

      join : ((k ≡ j) × (v ≡ w)) ⊎ ((k ≢ j) × (get m j ≡ some w)) → get (insert k v m) j ≡ some w
      join (inl (same, value)) =
          sym (ap (get (insert k v m)) same) ∙ (get-insert k v m ∙ ap some value)
      join (inr (other, old)) = get-insert_ne k j v m other ∙ old
