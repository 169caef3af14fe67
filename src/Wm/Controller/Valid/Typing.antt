-- ===== src/Wm/Controller/Valid/Typing.antt =====
-- The invariant under typed characters, backspace, confirm and escape.
use open_sesame.Prelude.{
  ℕ, ◌-◌, ◌≤◌, ◌<◌, ◌≡◌, refl, true, false, Option, some, [], ◌∷◌, ◌++◌, arith, inl, inr, length,
  is_empty, drop_last, Bool-cases, get_elem?-lt, get_elem?-some,
}
use open_sesame.Prelude.Text.{Text, Unicode, str_len, utf8_len, str_len-append}
use open_sesame.Wm.Snapshot.{Snapshot}
use open_sesame.Wm.Snapshot.Shape.{IsParallel}
use open_sesame.Wm.Controller.State.{
  Phase, idle, armed, picking, launching, launch_error, unlocking, Armed, Picking, Step, verifying,
  submit_password_unlock,
}
use open_sesame.Wm.Controller.Input.{on_confirm, on_escape, on_backspace}
use open_sesame.Wm.Controller.Typing.{on_match, accepts, on_char, is_password}
use open_sesame.Wm.Hints.{MatchResult, exact, no_match, partial, match_input}
use open_sesame.Wm.Hints.Match.{match_input-exact_iff}
use open_sesame.Wm.Controller.Valid.{IsValid}

utf8_len-le : (c : ℕ) → (1 ≤ utf8_len c) × (utf8_len c ≤ 4)
utf8_len-le c = ground arith

str_len-push : (s : Text) (c : ℕ) → str_len s < 64 → str_len (s ++ c ∷ []) ≤ 67
str_len-push s c h = omega (arith, str_len-append s (c ∷ []), utf8_len-le c)

str_len-drop_last : (s : Text) → str_len (drop_last s) ≤ str_len s
str_len-drop_last [] = omega arith
str_len-drop_last (c ∷ []) = omega arith
str_len-drop_last (c ∷ d ∷ s) = omega (arith, str_len-drop_last (d ∷ s))

-- A text of one byte is a single key.
drop_last-single : (s : Text) → str_len s ≡ 1 → is_empty (drop_last s) ≡ true
drop_last-single [] h = refl
drop_last-single (c ∷ []) h = refl
drop_last-single (c ∷ d ∷ s) h = absurd (omega (arith, utf8_len-le c, utf8_len-le d))

pub on_backspace-IsValid :
    (p : Phase) (last : Option ℕ)
    → IsValid p
    → IsValid (on_backspace (record { phase = p; last_ipc_advance = last })).0.phase
unfolding on_backspace
on_backspace-IsValid (armed a) last v =
    ground (arith, str_len-drop_last a.input, drop_last-single a.input)
on_backspace-IsValid (picking a) last v =
    ground (arith, str_len-drop_last a.input, drop_last-single a.input)
on_backspace-IsValid (unlocking k) last v = ground arith
on_backspace-IsValid _ last v = v

module _ (u : Unicode) where
  match_input-le :
      (snap : Snapshot) (input : Text) (idx : ℕ)
      → IsParallel snap
      → match_input u input snap.hints ≡ exact idx
      → idx ≤ length snap.windows - 1
  match_input-le snap input idx h e =
      let hit = ((match_input-exact_iff u input snap.hints idx).0 e).hit in
      omega (arith, get_elem?-lt snap.hints idx hit, h.hints_parallel)

  on_match-IsValid_armed :
      (a : Armed) (last : Option ℕ) (r : MatchResult)
      → IsParallel a.snap
      → a.selection ≤ length a.snap.windows - 1
      → str_len a.input ≤ 67
      → ((idx : ℕ) → r ≡ exact idx → idx ≤ length a.snap.windows - 1)
      → IsValid
          (on_match u r true a.input a.snap
            (record { phase = armed a; last_ipc_advance = last })).0.phase
  unfolding on_match
  on_match-IsValid_armed a last (exact idx) h sel short hit = record {
    parallel = h;
    selected = hit idx refl;
    short = short;
    single_key = inl refl;
  }
  on_match-IsValid_armed a last no_match h sel short hit = ground arith
  on_match-IsValid_armed a last (partial is) h sel short hit = record {
    parallel = h;
    selected = sel;
    short = short;
    single_key = inl refl;
  }

  on_match-IsValid_picking :
      (a : Picking) (last : Option ℕ) (r : MatchResult)
      → IsParallel a.snap
      → a.selection ≤ length a.snap.windows - 1
      → str_len a.input ≤ 67
      → ((idx : ℕ) → r ≡ exact idx → idx ≤ length a.snap.windows - 1)
      → IsValid
          (on_match u r false a.input a.snap
            (record { phase = picking a; last_ipc_advance = last })).0.phase
  unfolding on_match
  on_match-IsValid_picking a last (exact idx) h sel short hit = record {
    parallel = h;
    selected = hit idx refl;
    short = short;
    single_key = inl refl;
  }
  on_match-IsValid_picking a last no_match h sel short hit = ground arith
  on_match-IsValid_picking a last (partial is) h sel short hit = record {
    parallel = h;
    selected = sel;
    short = short;
    single_key = inl refl;
  }

  accepts-lt : (input : Text) (ch : ℕ) → accepts u input ch ≡ true → str_len input < 64
  accepts-lt input ch h = ground arith

  pub on_char-IsValid :
      (ch : ℕ) (p : Phase) (last : Option ℕ)
      → IsValid p
      → IsValid (on_char u ch (record { phase = p; last_ipc_advance = last })).0.phase
  unfolding on_char
  on_char-IsValid ch (armed a) last v = elim (Bool-cases (accepts u a.input ch)) [
    | inl taken ↦
        let input = a.input ++ ch ∷ [] in
        rw taken (
          on_match-IsValid_armed (record a { input = input }) last
            (match_input u input a.snap.hints) v.parallel v.selected
            (str_len-push a.input ch (accepts-lt a.input ch taken))
            (λ idx. match_input-le a.snap input idx v.parallel))
    | inr refused ↦ rw refused v
  ]
  on_char-IsValid ch (picking a) last v = elim (Bool-cases (accepts u a.input ch)) [
    | inl taken ↦
        let input = a.input ++ ch ∷ [] in
        rw taken (
          on_match-IsValid_picking (record a { input = input }) last
            (match_input u input a.snap.hints) v.parallel v.selected
            (str_len-push a.input ch (accepts-lt a.input ch taken))
            (λ idx. match_input-le a.snap input idx v.parallel))
    | inr refused ↦ rw refused v
  ]
  on_char-IsValid ch (unlocking k) last v = ground arith
  on_char-IsValid ch launch_error last v = tt
  on_char-IsValid ch idle last v = tt
  on_char-IsValid ch launching last v = tt

-- Confirming in a valid state indexes in range, so it does not panic.
pub on_confirm-some :
    (p : Phase) (last : Option ℕ)
    → IsValid p
    → (s : Step) × (on_confirm (record { phase = p; last_ipc_advance = last }) ≡ some s)
      × IsValid s.0.phase
unfolding on_confirm
on_confirm-some (unlocking k) last v =
    let (profile, e) = get_elem?-some k.profiles_to_unlock k.current_index v in
    elim (Bool-cases (is_password k.unlock_mode)) [
      | inl typing ↦ (
        (
          record {
            phase = unlocking (record k { unlock_mode = verifying });
            last_ipc_advance = last;
          },
          submit_password_unlock profile ∷ [],
        ),
        rw (typing, e),
        v,
      )
      | inr other ↦ ((record { phase = unlocking k; last_ipc_advance = last }, []), rw other, v)
    ]
on_confirm-some (armed a) last v = (_, refl, tt)
on_confirm-some (picking a) last v = (_, refl, tt)
on_confirm-some launch_error last v = (_, refl, tt)
on_confirm-some idle last v = (_, refl, tt)
on_confirm-some launching last v = (_, refl, tt)

pub on_escape-IsValid :
    (p : Phase) (last : Option ℕ)
    → IsValid (on_escape (record { phase = p; last_ipc_advance = last })).0.phase
unfolding on_escape
on_escape-IsValid idle last = tt
on_escape-IsValid _ last = tt
