-- ===== src/Memory/Bytes.antt =====
-- A mapping's bytes by their offsets, and slices of it (`copy_nonoverlapping`, `from_raw_parts`).
use open_sesame.Prelude.{
  ℕ, zero, suc, ◌+◌, ◌≤◌, ◌<◌, ◌≡◌, refl, ap, ◌∙◌, ◌⊎◌, inl, inr, true, Bool-cases, List, [], ◌∷◌,
  length, ◌==◌, ==_iff, if◌then◌else◌, arith,
}

abbrev pub Memory : Type 0
Memory = ℕ → ℕ

abbrev pub write_bytes : ℕ → List ℕ → Memory → Memory
write_bytes at [] m = m
write_bytes at (b ∷ bytes) m =
    let rest = write_bytes (at + 1) bytes m in λ i. if i == at then b else rest i

abbrev pub read_bytes : ℕ → ℕ → Memory → List ℕ
read_bytes at zero m = []
read_bytes at (suc n) m = m at ∷ read_bytes (at + 1) n m

==_self : (n : ℕ) → (n == n) ≡ true
==_self n = (==_iff n n).1 refl

write_bytes-outside :
    (at : ℕ) (bytes : List ℕ) (m : Memory) (i : ℕ)
    → (i < at) ⊎ (at + length bytes ≤ i)
    → write_bytes at bytes m i ≡ m i
write_bytes-outside at [] m i out = refl
write_bytes-outside at (b ∷ bytes) m i out = elim (Bool-cases (i == at)) [
  | inl same ↦ let e : i ≡ at = (==_iff i at).0 same in absurd (apart out e)
  | inr other ↦ rw other (write_bytes-outside (at + 1) bytes m i (further out))
]
  where
    apart : (i < at) ⊎ (at + suc (length bytes) ≤ i) → i ≡ at → ⊥
    apart (inl h) e = omega arith
    apart (inr h) e = omega arith

    further : (i < at) ⊎ (at + suc (length bytes) ≤ i) → (i < at + 1) ⊎ (at + 1 + length bytes ≤ i)
    further (inl h) = inl (omega arith)
    further (inr h) = inr (omega arith)

read_bytes-cong :
    (at n : ℕ) (m k : Memory)
    → ((i : ℕ) → at ≤ i → i < at + n → m i ≡ k i)
    → read_bytes at n m ≡ read_bytes at n k
read_bytes-cong at zero m k same = refl
read_bytes-cong at (suc n) m k same = rw (same at (omega arith) (omega arith)) (
    ap (λ rest. k at ∷ rest)
      (read_bytes-cong (at + 1) n m k (λ i low high. same i (omega arith) (omega arith))))

-- What was written is read back.
pub read_bytes-write_bytes :
    (at : ℕ) (bytes : List ℕ) (m : Memory)
    → read_bytes at (length bytes) (write_bytes at bytes m) ≡ bytes
read_bytes-write_bytes at [] m = refl
read_bytes-write_bytes at (b ∷ bytes) m = rw (==_self at) (
    ap (λ rest. b ∷ rest)
      (read_bytes-cong (at + 1) (length bytes) (write_bytes at (b ∷ bytes) m)
          (write_bytes (at + 1) bytes m) behind
        ∙ read_bytes-write_bytes (at + 1) bytes m))
  where
    behind :
        (i : ℕ)
        → at + 1 ≤ i
        → i < at + 1 + length bytes
        → write_bytes at (b ∷ bytes) m i ≡ write_bytes (at + 1) bytes m i
    behind i low high = elim (Bool-cases (i == at)) [
      | inl same ↦ let e : i ≡ at = (==_iff i at).0 same in absurd (omega arith)
      | inr other ↦ rw other refl
    ]

-- A write elsewhere is not seen.
pub read_bytes-apart :
    (at n to : ℕ) (bytes : List ℕ) (m : Memory)
    → (at + n ≤ to) ⊎ (to + length bytes ≤ at)
    → read_bytes at n (write_bytes to bytes m) ≡ read_bytes at n m
read_bytes-apart at n to bytes m apart =
    read_bytes-cong at n (write_bytes to bytes m) m
      (λ i low high. write_bytes-outside to bytes m i (outside apart i low high))
  where
    outside :
        (at + n ≤ to) ⊎ (to + length bytes ≤ at)
        → (i : ℕ) → at ≤ i
        → i < at + n
        → (i < to) ⊎ (to + length bytes ≤ i)
    outside (inl h) i low high = inl (omega arith)
    outside (inr h) i low high = inr (omega arith)
