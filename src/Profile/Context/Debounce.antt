-- ===== src/Profile/Context/Debounce.antt =====
-- The default profile is switched to the winner, and not too soon again.
use open_sesame.Prelude.{
  ℕ, ◌-◌, ◌/◌, ◌≡◌, ◌≢◌, ◌≤◌, ◌⊎◌, refl, sym, ◌∙◌, ap, subst, inl, inr, true, false, Bool-cases,
  Option-cases, none, some, arith, ltb, ◌==◌,
}
use open_sesame.Prelude.Maps.{nat_eq, get, insert}
use open_sesame.Profile.Context.{
  ContextSignal, ProfileActivation, ContextEngine, winner, is_debounced, switch_to, evaluate,
}

-- An evaluation that returns a profile: it is the winner's, it was not the default, the debounce
-- time since the last switch to it is over, and it is the default now, switched to just now.
pub record Switches (signal : ContextSignal) (now target : ℕ) (engine after : ContextEngine)
    : Type 0 where
  pub profile : ProfileActivation
  pub wins : winner engine.profiles signal ≡ some profile
  pub same : profile.profile_id ≡ target
  pub changed : target ≢ engine.default_profile
  pub waited :
      (last : ℕ)
      → get engine.last_switch target ≡ some last
      → profile.switch_delay_ms ≤ (now - last) / 1000000
  pub default_now : after.default_profile ≡ target
  pub stamped : after.last_switch ≡ insert target now engine.last_switch

module _ (now : ℕ) (engine : ContextEngine) (p : ProfileActivation) where
  abbrev switched : ContextEngine
  switched = record engine {
    default_profile = p.profile_id;
    last_switch = insert p.profile_id now engine.last_switch;
  }

  switch_to-same :
      (p.profile_id == engine.default_profile) ≡ true → switch_to p now engine ≡ (none, engine)
  unfolding switch_to
  switch_to-same same = rw (same, switch_to) refl

  switch_to-debounced :
      (p.profile_id == engine.default_profile) ≡ false
      → is_debounced engine.last_switch p now ≡ true
      → switch_to p now engine ≡ (none, engine)
  unfolding switch_to
  switch_to-debounced other early = rw (other, switch_to, early) refl

  switch_to-switched :
      (p.profile_id == engine.default_profile) ≡ false
      → is_debounced engine.last_switch p now ≡ false
      → switch_to p now engine ≡ (some p.profile_id, switched)
  unfolding switch_to
  switch_to-switched other late = rw (other, switch_to, late) refl

  is_debounced-waited :
      is_debounced engine.last_switch p now ≡ false
      → (last : ℕ) → get engine.last_switch p.profile_id ≡ some last
      → p.switch_delay_ms ≤ (now - last) / 1000000
  unfolding is_debounced
  is_debounced-waited late last there = not_less (sym (rw (there, is_debounced) refl) ∙ late)
    where
      not_less :
          ltb ((now - last) / 1000000) p.switch_delay_ms ≡ false
          → p.switch_delay_ms ≤ (now - last) / 1000000
      not_less h = ground arith

  -- A profile that has won is switched to, or nothing changes.
  switch_to-cases :
      (signal : ContextSignal)
      → winner engine.profiles signal ≡ some p
      → (switch_to p now engine ≡ (none, engine))
        ⊎ ((target : ℕ) × ((switch_to p now engine).0 ≡ some target)
            × Switches signal now target engine (switch_to p now engine).1)
  switch_to-cases signal wins = elim (Bool-cases (p.profile_id == engine.default_profile)) [
    | inl same ↦ inl (switch_to-same same)
    | inr other ↦ elim (Bool-cases (is_debounced engine.last_switch p now)) [
      | inl early ↦ inl (switch_to-debounced other early)
      | inr late ↦
          let e = switch_to-switched other late in
          inr (
            p.profile_id,
            ap (λ r. r.0) e,
            subst (λ r. Switches signal now p.profile_id engine r.1) (sym e)
                (record {
                  profile = p;
                  wins = wins;
                  same = refl;
                  changed = λ d. ground (arith, other, d);
                  waited = is_debounced-waited late;
                  default_now = refl;
                  stamped = refl;
                }),
          )
    ]
  ]

-- An evaluation that returns no profile changes nothing; one that returns a profile has switched to
-- it: it is the winner and was not the default, and since the last switch to it the time that it
-- asks for is over.
pub evaluate-Switches :
    (signal : ContextSignal) (now : ℕ) (engine : ContextEngine)
    → (evaluate signal now engine ≡ (none, engine))
      ⊎ ((target : ℕ) × ((evaluate signal now engine).0 ≡ some target)
          × Switches signal now target engine (evaluate signal now engine).1)
unfolding evaluate
evaluate-Switches signal now engine = elim (Option-cases (winner engine.profiles signal)) [
  | inl nobody ↦ inl (rw (nobody, evaluate) refl)
  | inr (p, wins) ↦ rw (wins, evaluate) (switch_to-cases now engine p signal wins)
]
