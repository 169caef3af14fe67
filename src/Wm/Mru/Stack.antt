-- ===== src/Wm/Mru/Stack.antt =====
-- The stack that the functions keep, apart from the file.
use open_sesame.Prelude.{
  ℕ, zero, suc, ◌≤◌, ◌≡◌, ◌≢◌, refl, sym, ◌∙◌, ap, Bool, true, false, not, Bool-cases, inl, inr,
  some, List, [], ◌∷◌, arith, if◌then◌else◌, length, length-take, take, retain, first, All,
}
use open_sesame.Prelude.Text.{Text, text_eq, text_eq_iff, text_eq_sound}
use open_sesame.Wm.Mru.{MruState, current, previous, promote, is_current, max_entries}

-- What `save` makes of the stack.
unfoldable pub saved : Text → MruState → MruState
saved target s = if is_current s target then s else promote target s

-- No entry stands twice.
abbrev pub Distinct : List Text → Type 0
Distinct [] = Unit
Distinct (t ∷ ts) = All (λ s. s ≢ t) ts × Distinct ts

pub All-retain {ℓ} :
    (P : Text → Type ℓ) (p : Text → Bool) (ts : List Text) → All P ts → All P (retain p ts)
All-retain P p [] h = tt
All-retain P p (t ∷ ts) h = elim (Bool-cases (p t)) [
  | inl kept ↦ rw kept (h.0, All-retain P p ts h.1)
  | inr gone ↦ rw gone (All-retain P p ts h.1)
]

pub All-take {ℓ} : (P : Text → Type ℓ) (n : ℕ) (ts : List Text) → All P ts → All P (take n ts)
All-take P zero ts h = tt
All-take P (suc n) [] h = tt
All-take P (suc n) (t ∷ ts) h = (h.0, All-take P n ts h.1)

Distinct-retain : (p : Text → Bool) (ts : List Text) → Distinct ts → Distinct (retain p ts)
Distinct-retain p [] h = tt
Distinct-retain p (t ∷ ts) h = elim (Bool-cases (p t)) [
  | inl kept ↦ rw kept (All-retain (λ s. s ≢ t) p ts h.0, Distinct-retain p ts h.1)
  | inr gone ↦ rw gone (Distinct-retain p ts h.1)
]

Distinct-take : (n : ℕ) (ts : List Text) → Distinct ts → Distinct (take n ts)
Distinct-take zero ts h = tt
Distinct-take (suc n) [] h = tt
Distinct-take (suc n) (t ∷ ts) h = (All-take (λ s. s ≢ t) n ts h.0, Distinct-take n ts h.1)

retain-ne :
    (target : Text) (ts : List Text)
    → All (λ s. s ≢ target) (retain (λ t. not (text_eq t target)) ts)
retain-ne target [] = tt
retain-ne target (t ∷ ts) = elim (Bool-cases (text_eq t target)) [
  | inl same ↦ rw same (retain-ne target ts)
  | inr differs ↦ rw differs ((λ e. cc ((text_eq_iff t target).1 e)), retain-ne target ts)
]

text_ne : (s t : Text) → s ≢ t → text_eq s t ≡ false
text_ne s t ne = elim (Bool-cases (text_eq s t)) [
  | inl same ↦ absurd (ne (text_eq_sound s t same))
  | inr differs ↦ differs
]

-- A stack to be kept: at most 64 entries, none twice.
pub record IsStack (s : MruState) : Type 0 where
  pub capped : length s.stack ≤ max_entries
  pub distinct : Distinct s.stack

promote-IsStack : (target : Text) (s : MruState) → Distinct s.stack → IsStack (promote target s)
unfolding promote
promote-IsStack target s h = record {
  capped =
      omega (arith, length-take {0} 64 (target ∷ retain (λ t. not (text_eq t target)) s.stack));
  distinct =
      Distinct-take 64 (target ∷ retain (λ t. not (text_eq t target)) s.stack)
        (retain-ne target s.stack, Distinct-retain (λ t. not (text_eq t target)) s.stack h);
}

is_current-first :
    (target : Text) (ts : List Text)
    → is_current (record { stack = ts }) target ≡ true
    → first ts ≡ some target
is_current-first target [] h = cc
is_current-first target (t ∷ ts) h = ap some (text_eq_sound t target h)

-- Saving a window keeps the stack at 64 entries with none twice, and puts the window on top.
saved-IsStack :
    (target : Text) (s : MruState)
    → IsStack s
    → IsStack (saved target s) × (current (saved target s) ≡ some target)
unfolding saved promote current
saved-IsStack target s h = elim (Bool-cases (is_current s target)) [
  | inl top ↦ rw top (h, is_current-first target s.stack top)
  | inr other ↦ rw other (unfold promote in promote-IsStack target s h.distinct, refl)
]

-- The window that was on top is the previous one after another window is saved.
previous-saved :
    (target top : Text) (s : MruState)
    → current s ≡ some top
    → top ≢ target
    → previous (saved target s) ≡ some top
unfolding current
previous-saved target top s e ne = second s.stack e
  where
    second :
        (ts : List Text)
        → first ts ≡ some top
        → previous (saved target (record { stack = ts })) ≡ some top
    second [] h = cc
    second (t ∷ ts) h =
        let same : t ≡ top = cc in
        let differs : text_eq t target ≡ false = text_ne t target (λ q. ne (sym same ∙ q)) in
        unfold previous saved promote in rw differs (ap some same)
