-- ===== src/Wm/Controller/Valid/Unlock.antt =====
-- The invariant under the results of launches and unlocks.
use open_sesame.Prelude.{
  ℕ, suc, Bool, Option, arith, inl, inr, get_elem?, Option-cases, get_elem?-lt,
}
use open_sesame.Prelude.Text.{Text}
use open_sesame.Wm.Controller.State.{
  Phase, launching, unlocking, OverlayController, Unlocking, LaunchResult,
}
use open_sesame.Wm.Controller.Unlock.{
  unlock_plan, on_launch_result, advance_to_next_profile_or_retry, on_auto_unlock_result,
  on_touch_result, on_unlock_result,
}
use open_sesame.Wm.Controller.Valid.{IsValid}

pub on_launch_result-IsValid :
    (r : LaunchResult) (p : Phase) (last : Option ℕ)
    → IsValid p
    → IsValid (on_launch_result r (record { phase = p; last_ipc_advance = last })).0.phase
unfolding on_launch_result unlock_plan
on_launch_result-IsValid r launching last v = ground arith
on_launch_result-IsValid r _ last v = v

advance-IsValid :
    (k : Unlocking) (c : OverlayController) → IsValid (advance_to_next_profile_or_retry k c).0.phase
unfolding advance_to_next_profile_or_retry
advance-IsValid k c = elim (Option-cases (get_elem? k.profiles_to_unlock (suc k.current_index))) [
  | inl last ↦ rw (last, IsValid) tt
  | inr next ↦ rw (next.1, IsValid) (get_elem?-lt k.profiles_to_unlock (suc k.current_index) next.1)
]

module _ (success : Bool) (profile : Text) where
  pub on_auto_unlock_result-IsValid :
      (needs_touch : Bool) (p : Phase) (last : Option ℕ)
      → IsValid p
      → IsValid
          (on_auto_unlock_result success profile needs_touch
            (record { phase = p; last_ipc_advance = last })).0.phase
  unfolding on_auto_unlock_result
  on_auto_unlock_result-IsValid needs_touch (unlocking k) last v =
      ground (arith, advance-IsValid k (record { phase = unlocking k; last_ipc_advance = last }))
  on_auto_unlock_result-IsValid needs_touch _ last v = v

  pub on_touch_result-IsValid :
      (p : Phase) (last : Option ℕ)
      → IsValid p
      → IsValid
          (on_touch_result success profile (record { phase = p; last_ipc_advance = last })).0.phase
  unfolding on_touch_result
  on_touch_result-IsValid (unlocking k) last v =
      ground (arith, advance-IsValid k (record { phase = unlocking k; last_ipc_advance = last }))
  on_touch_result-IsValid _ last v = v

  pub on_unlock_result-IsValid :
      (p : Phase) (last : Option ℕ)
      → IsValid p
      → IsValid
          (on_unlock_result success profile (record { phase = p; last_ipc_advance = last })).0.phase
  unfolding on_unlock_result
  on_unlock_result-IsValid (unlocking k) last v =
      ground (arith, advance-IsValid k (record { phase = unlocking k; last_ipc_advance = last }))
  on_unlock_result-IsValid _ last v = v
