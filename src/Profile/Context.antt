-- ===== src/Profile/Context.antt =====
-- core-profile/src/context.rs: the default profile, chosen by rules on what the system reports.
pub mod Winner
pub mod Debounce
use open_sesame.Prelude.{
  ℕ, ◌-◌, ◌/◌, Bool, false, Option, none, some, List, [], ◌∷◌, retain, leb, ltb, ◌==◌,
  if◌then◌else◌, any, all, first,
}
use open_sesame.Prelude.Text.{Text, text_eq}
use open_sesame.Prelude.Maps.{Map, nat_eq, get, insert}

-- core-profile/src/lib.rs; a coordinate is the 64 bits of an `f64`.
pub data ContextSignal : Type 0 where
  ssid_changed app_focused usb_device_attached usb_device_detached : Text → ContextSignal
  hardware_key_present time_window_entered : Text → ContextSignal
  geolocation_changed : ℕ → ℕ → ContextSignal

pub data RuleTrigger : Type 0 where
  ssid app_focus usb_device hardware_key time_window geolocation : RuleTrigger

pub record ActivationRule : Type 0 where
  pub trigger : RuleTrigger
  pub value : Text

pub data RuleCombinator : Type 0 where
  all_rules any_rule : RuleCombinator

-- A profile's id is the 128 bits of a UUID.
pub record ProfileActivation : Type 0 where
  pub profile_id : ℕ
  pub rules : List ActivationRule
  pub combinator : RuleCombinator
  pub priority : ℕ
  pub switch_delay_ms : ℕ

pub record ContextEngine : Type 0 where
  pub profiles : List ProfileActivation
  pub default_profile : ℕ
  pub last_switch : Map ℕ ℕ

unfoldable pub new : List ProfileActivation → ℕ → ContextEngine
new profiles initial = record { profiles = profiles; default_profile = initial; last_switch = [] }

abbrev trigger_matches : RuleTrigger → ContextSignal → Text → Bool
trigger_matches ssid (ssid_changed s) value = text_eq value s
trigger_matches app_focus (app_focused app) value = text_eq value app
trigger_matches usb_device (usb_device_attached dev) value = text_eq value dev
trigger_matches hardware_key (hardware_key_present key) value = text_eq value key
trigger_matches time_window (time_window_entered expr) value = text_eq value expr
trigger_matches _ _ value = false

unfoldable pub rule_matches : ActivationRule → ContextSignal → Bool
rule_matches rule signal = trigger_matches rule.trigger signal rule.value

abbrev combined : RuleCombinator → (ActivationRule → Bool) → List ActivationRule → Bool
combined all_rules = all
combined any_rule = any

unfoldable pub matches_profile : ContextSignal → ProfileActivation → Bool
unfolding rule_matches
matches_profile signal profile =
    combined profile.combinator (λ rule. rule_matches rule signal) profile.rules

-- `sort_by_key(|c| Reverse(c.priority))`, which is stable.
unfoldable pub insert_by_priority :
    ProfileActivation → List ProfileActivation → List ProfileActivation
insert_by_priority p [] = p ∷ []
insert_by_priority p (q ∷ qs) =
    let rest = insert_by_priority p qs in if leb q.priority p.priority then p ∷ q ∷ qs else q ∷ rest

unfoldable pub sort_by_priority : List ProfileActivation → List ProfileActivation
sort_by_priority [] = []
sort_by_priority (p ∷ ps) = insert_by_priority p (sort_by_priority ps)

unfoldable pub winner : List ProfileActivation → ContextSignal → Option ProfileActivation
unfolding matches_profile sort_by_priority insert_by_priority
winner profiles signal = first (sort_by_priority (retain (matches_profile signal) profiles))

-- `last.elapsed().as_millis() < switch_delay_ms`, where the profile has been switched to before.
unfoldable pub is_debounced : Map ℕ ℕ → ProfileActivation → ℕ → Bool
is_debounced last_switch p now = elim (get last_switch p.profile_id) [
  | none ↦ false
  | some last ↦ ltb ((now - last) / 1000000) p.switch_delay_ms
]

unfoldable pub switch_to : ProfileActivation → ℕ → ContextEngine → Option ℕ × ContextEngine
unfolding is_debounced
switch_to p now engine =
    if p.profile_id == engine.default_profile
    then (none, engine)
    else if is_debounced engine.last_switch p now
    then (none, engine)
    else (
      some p.profile_id,
      record engine {
        default_profile = p.profile_id;
        last_switch = insert p.profile_id now engine.last_switch;
      },
    )

unfoldable pub evaluate : ContextSignal → ℕ → ContextEngine → Option ℕ × ContextEngine
unfolding winner switch_to
evaluate signal now engine = elim (winner engine.profiles signal) [
  | none ↦ (none, engine)
  | some p ↦ switch_to p now engine
]
