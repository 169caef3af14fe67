-- ===== src/Ipc/Framing/Exact.antt =====
-- core-ipc/src/framing.rs: the bytes of a length, and reading as many bytes as asked for.
use open_sesame.Prelude.{
  ℕ, zero, suc, ◌^◌, ◌≡◌, ◌<◌, refl, sym, ◌∙◌, ap, inl, inr, true, false, Bool-cases, Option, none,
  some, [], ◌∷◌, ◌++◌, arith, leb, length, length-append, length-take, leb→le, take, drop,
}
use open_sesame.Ipc.Framing.{Bytes, to_be_bytes, from_be_bytes, read_exact}

pub from_be_bytes-to_be_bytes : (n : ℕ) → n < 2 ^ 32 → from_be_bytes (to_be_bytes n) ≡ n
unfolding from_be_bytes to_be_bytes
from_be_bytes-to_be_bytes n h = omega (arith, h)

pub take-append : (p rest : Bytes) → take (length p) (p ++ rest) ≡ p
take-append [] rest = refl
take-append (b ∷ p) rest = ap (λ q. b ∷ q) (take-append p rest)

pub drop-append : (p rest : Bytes) → drop (length p) (p ++ rest) ≡ rest
drop-append [] rest = refl
drop-append (b ∷ p) rest = drop-append p rest

pub read_exact-append : (p rest : Bytes) → read_exact (length p) (p ++ rest) ≡ some (p, rest)
unfolding read_exact
read_exact-append p rest = rw (enough, take-append p rest, drop-append p rest) refl
  where
    enough : leb (length p) (length (p ++ rest)) ≡ true
    enough = ground (arith, length-append p rest)

pub read_exact-to_be_bytes :
    (n : ℕ) (rest : Bytes) → read_exact 4 (to_be_bytes n ++ rest) ≡ some (to_be_bytes n, rest)
unfolding to_be_bytes
read_exact-to_be_bytes n rest = read_exact-append (to_be_bytes n) rest

take-drop : (n : ℕ) (s : Bytes) → take n s ++ drop n s ≡ s
take-drop zero s = refl
take-drop (suc n) [] = refl
take-drop (suc n) (b ∷ s) = ap (λ q. b ∷ q) (take-drop n s)

pair-inj :
    (p q r s : Bytes)
    → ◌≡◌ {A = Option (Bytes × Bytes)} (some (p, r)) (some (q, s))
    → (p ≡ q) × (r ≡ s)
pair-inj p q r s d = (cc, cc)

-- The bytes that are read and those that are left make up the stream.
pub read_exact-parts :
    (n : ℕ) (stream p rest : Bytes)
    → read_exact n stream ≡ some (p, rest)
    → (stream ≡ p ++ rest) × (length p ≡ n)
unfolding read_exact
read_exact-parts n stream p rest h = elim (Bool-cases (leb n (length stream))) [
  | inl enough ↦
      let e = pair-inj (take n stream) p (drop n stream) rest (sym (read enough) ∙ h) in
      (
        sym (take-drop n stream) ∙ (ap (λ q. q ++ drop n stream) e.0 ∙ ap (λ q. p ++ q) e.1),
        sym (ap length e.0) ∙ omega (arith, length-take n stream, leb→le n (length stream) enough),
      )
  | inr short ↦ absurd (none-ne (sym (unread short) ∙ h))
]
  where
    none-ne : ◌≡◌ {A = Option (Bytes × Bytes)} none (some (p, rest)) → ⊥
    none-ne d = cc

    read : leb n (length stream) ≡ true → read_exact n stream ≡ some (take n stream, drop n stream)
    read enough = rw (enough, read_exact) refl

    unread : leb n (length stream) ≡ false → read_exact n stream ≡ none
    unread short = rw (short, read_exact) refl
