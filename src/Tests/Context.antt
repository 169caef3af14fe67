-- ===== src/Tests/Context.antt =====
-- Tests of the context engine and instances of its theorems.
use open_sesame.Prelude.Maps.{get}
use open_sesame.Prelude.{ℕ, ◌≡◌, ◌⊎◌, refl, some, none, List, [], ◌∷◌}
use open_sesame.Prelude.Text.{text_eq, codes}
use open_sesame.Profile.Context.{
  ContextSignal, ssid_changed, ssid, any_rule, ProfileActivation, ContextEngine, new, winner,
  evaluate,
}
use open_sesame.Profile.Context.Debounce.{Switches, evaluate-Switches}

abbrev on_network : ℕ → ℕ → ProfileActivation
on_network id priority = record {
  profile_id = id;
  rules = record { trigger = ssid; value = codes "CorpWiFi" } ∷ [];
  combinator = any_rule;
  priority = priority;
  switch_delay_ms = 500;
}

abbrev profiles : List ProfileActivation
profiles = on_network 1 5 ∷ on_network 2 10 ∷ on_network 3 10 ∷ []

abbrev signal : ContextSignal
signal = ssid_changed (codes "CorpWiFi")

abbrev engine : ContextEngine
engine = new profiles 1

highest_first : winner profiles signal ≡ some (on_network 2 10)
unfolding winner text_eq
highest_first = refl

switched : (evaluate signal 9 engine).0 ≡ some 2
unfolding evaluate new text_eq get
switched = refl

evaluate-Switches_example :
    (evaluate signal 9 engine ≡ (none, engine))
    ⊎ ((target : ℕ) × ((evaluate signal 9 engine).0 ≡ some target)
        × Switches signal 9 target engine (evaluate signal 9 engine).1)
evaluate-Switches_example = evaluate-Switches signal 9 engine
