-- ===== src/Wm/Controller/Progress.antt =====
-- The vaults that a denied launch needs are unlocked one after the other, and the launch is retried.
use open_sesame.Prelude.{
  ℕ, zero, suc, ◌+◌, ◌≡◌, refl, sym, ap, ◌∙◌, ◌≤◌, true, Option, none, some, List, [], ◌∷◌, ◌++◌,
  arith, length, get_elem?, get_elem?-some, drop, replicate,
}
use open_sesame.Prelude.Text.{Text, Unicode}
use open_sesame.Wm.Controller.State.{
  Command, attempt_auto_unlock, activate_profiles, launch_app, show_launching,
  clear_password_buffer, unlocking, launching, Unlocking, PendingLaunch, auto_attempt,
  unlock_result, Step,
}
use open_sesame.Wm.Controller.Unlock.{on_unlock_result}
use open_sesame.Wm.Controller.Handle.{World, handle, run, run-cons}
use open_sesame.Wm.Controller.Rules.{at}
use open_sesame.Wm.Controller.Commit.{launches}

abbrev attempt_of : Command → List Text → List Text
attempt_of (attempt_auto_unlock profile) profiles = profile ∷ profiles
attempt_of _ profiles = profiles

-- The vaults that an attempt was made on.
abbrev pub attempts : List Command → List Text
attempts [] = []
attempts (command ∷ commands) = attempt_of command (attempts commands)

abbrev activated_of : Command → List (List Text) → List (List Text)
activated_of (activate_profiles profiles) rest = profiles ∷ rest
activated_of _ rest = rest

abbrev pub profile_activations : List Command → List (List Text)
profile_activations [] = []
profile_activations (command ∷ commands) = activated_of command (profile_activations commands)

drop-get_elem? :
    (xs : List Text) (i : ℕ) (x : Text) → get_elem? xs i ≡ some x → drop i xs ≡ x ∷ drop (suc i) xs
drop-get_elem? [] i x h = cc
drop-get_elem? (y ∷ xs) zero x h = cc
drop-get_elem? (y ∷ xs) (suc i) x h = drop-get_elem? xs i x h

drop-none : (xs : List Text) (i : ℕ) → get_elem? xs i ≡ none → drop i xs ≡ []
drop-none [] zero h = refl
drop-none [] (suc i) h = refl
drop-none (y ∷ xs) zero h = cc
drop-none (y ∷ xs) (suc i) h = drop-none xs i h

get_elem?-none : (xs : List Text) (i : ℕ) → length xs ≤ i → get_elem? xs i ≡ none
get_elem?-none [] i h = refl
get_elem?-none (x ∷ xs) zero h = absurd (omega arith)
get_elem?-none (x ∷ xs) (suc i) h = get_elem?-none xs i (omega arith)

abbrev retry_of : Unlocking → PendingLaunch
retry_of k = record {
  command = k.retry_command;
  tags = k.retry_tags;
  launch_args = k.retry_launch_args;
}

abbrev last_commands : Unlocking → List Command
last_commands k =
    clear_password_buffer
    ∷ show_launching
    ∷ activate_profiles k.profiles_to_unlock
    ∷ launch_app k.retry_command k.retry_tags k.retry_launch_args
    ∷ []

abbrev next_vault : Unlocking → Unlocking
next_vault k = record k {
  current_index = suc k.current_index;
  password_len = 0;
  unlock_mode = auto_attempt;
}

module _ (u : Unicode) (w : World) (profile : Text) where
  unlock-last :
      (k : Unlocking) (last : Option ℕ)
      → get_elem? k.profiles_to_unlock (suc k.current_index) ≡ none
      → handle u (unlock_result true profile) w (at (unlocking k) last)
        ≡ some ((at launching last, last_commands k), w.disk)
  unfolding handle on_unlock_result
  unlock-last k last h = ground arith

  unlock-next :
      (k : Unlocking) (last : Option ℕ) (next : Text)
      → get_elem? k.profiles_to_unlock (suc k.current_index) ≡ some next
      → handle u (unlock_result true profile) w (at (unlocking k) last)
        ≡ some (
          (
            at (unlocking (next_vault k)) last,
            clear_password_buffer ∷ attempt_auto_unlock next ∷ [],
          ),
          w.disk,
        )
  unfolding handle on_unlock_result
  unlock-next k last next h = ground arith

  -- With `n + 1` vaults left, the one being unlocked among them, `n + 1` successes lead to the
  -- launch: the other vaults are attempted in their order, then all profiles are activated once and
  -- the launch that was denied is started again, once.
  pub run-unlock_result :
      (n : ℕ) (k : Unlocking) (last : Option ℕ)
      → k.current_index + suc n ≡ length k.profiles_to_unlock
      → (s : Step) × (run u
            (replicate (suc n) (unlock_result true profile, w))
            (at (unlocking k) last)
          ≡ some s)
        × (s.0.phase ≡ launching)
        × (attempts s.1 ≡ drop (suc k.current_index) k.profiles_to_unlock)
        × (profile_activations s.1 ≡ k.profiles_to_unlock ∷ [])
        × (launches s.1 ≡ retry_of k ∷ [])
  unfolding run
  run-unlock_result zero k last h =
      let end = get_elem?-none k.profiles_to_unlock (suc k.current_index) (omega arith) in
      (
        (at launching last, last_commands k),
        run-cons u (unlock_result true profile) w [] (at (unlocking k) last)
            ((at launching last, last_commands k), w.disk) (at launching last, [])
            (unlock-last k last end) refl,
        refl,
        sym (drop-none k.profiles_to_unlock (suc k.current_index) end),
        refl,
        refl,
      )
  run-unlock_result (suc n) k last h =
      let (next, found) = get_elem?-some k.profiles_to_unlock (suc k.current_index) (omega arith) in
      let first_commands : List Command = clear_password_buffer ∷ attempt_auto_unlock next ∷ [] in
      let (s, eq, phase, tried, activated, started) =
        run-unlock_result n (next_vault k) last (omega arith) in
      (
        (s.0, first_commands ++ s.1),
        run-cons u (unlock_result true profile) w
            (replicate (suc n) (unlock_result true profile, w)) (at (unlocking k) last)
            ((at (unlocking (next_vault k)) last, first_commands), w.disk) s
            (unlock-next k last next found) eq,
        phase,
        ap (λ ps. next ∷ ps) tried
            ∙ sym (drop-get_elem? k.profiles_to_unlock (suc k.current_index) next found),
        activated,
        started,
      )
