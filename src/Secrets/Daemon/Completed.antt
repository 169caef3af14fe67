-- ===== src/Secrets/Daemon/Completed.antt =====
-- What a profile is unlocked with, where its policy asks for several factors.
use open_sesame.Prelude.{
  ◌≡◌, refl, sym, ap, ◌∙◌, subst, true, false, Option, none, some, List, [], ◌∷◌, is_empty, arith,
}
use open_sesame.Prelude.Text.{Text}
use open_sesame.Prelude.Maps.{Map, list_eq, get, insert, get-insert}
use open_sesame.Secrets.Unlock.Factor.{AuthFactorId, factor_eq}
use open_sesame.Secrets.Unlock.Required.{needs_all}
use open_sesame.Secrets.Unlock.{
  Key, VaultMetadata, PartialUnlock, contains, requirement, is_complete, is_expired, fresh_partial,
  record_factor,
}
use open_sesame.Secrets.Daemon.{ok, World, Daemon, Handled}
use open_sesame.Secrets.Daemon.Unlocking.{
  promote, promoted_key, recorded, submit_to, submit_enrolled, submit_loaded, submit_target,
  handle_factor_submit, partial_or,
}
use open_sesame.Secrets.Daemon.Factors.{
  IsTracked, record_factor-received, record_factor-IsTracked, fresh_partial-IsTracked,
}
use open_sesame.Secrets.Daemon.Submitted.{ReachesWith, ReachesWith-Tracks}

-- The factors of a profile that were received so far.
abbrev received_so_far : Option PartialUnlock → Map AuthFactorId Key
received_so_far none = []
received_so_far (some p) = p.received_factors

complete-none_missing :
    (p : PartialUnlock) (g : AuthFactorId)
    → is_complete p ≡ true
    → contains p.remaining_required g ≡ false
unfolding is_complete
complete-none_missing p g h = by_list p.remaining_required (ground arith)
  where
    by_list : (fs : List AuthFactorId) → is_empty fs ≡ true → contains fs g ≡ false
    by_list [] e = refl
    by_list (f ∷ fs) e = cc

module _ (world : World) (meta : VaultMetadata) (factor : AuthFactorId) (key : Key) (target : Text)
    (d : Daemon) (locked : get d.vault_state.master_keys target ≡ none) where
  abbrev Unlocks : Handled → Key → Type 0
  Unlocks h k = get h.after.vault_state.master_keys target ≡ some k

  still_locked : (k : Key) → get d.vault_state.master_keys target ≡ some k → ⊥
  still_locked k h = cc

  -- The submission is enrolled, verified, in time, and the last.
  abbrev Completes : Option PartialUnlock → Key → Type 0
  Completes o k =
      let p = partial_or (fresh_partial meta world.now) o in
      (contains meta.enrolled_factors factor ≡ true)
      × (is_expired world.now p ≡ false)
      × (is_complete (record_factor meta factor key p) ≡ true)
      × (promoted_key world meta target (record_factor meta factor key p).received_factors ≡ k)

  recorded-completes :
      (p : PartialUnlock) (k : Key)
      → Unlocks (recorded world meta target p d) k
      → (is_complete p ≡ true) × (promoted_key world meta target p.received_factors ≡ k)
  unfolding promote
  recorded-completes p k h = ground (
    arith,
    still_locked k,
    get-insert target (promoted_key world meta target p.received_factors) d.vault_state.master_keys,
  )

  submit_to-completes :
      (p : PartialUnlock) (k : Key)
      → Unlocks (submit_to world meta factor key target p d) k
      → (is_expired world.now p ≡ false)
        × (is_complete (record_factor meta factor key p) ≡ true)
        × (promoted_key world meta target (record_factor meta factor key p).received_factors ≡ k)
  submit_to-completes p k h =
      ground (arith, still_locked k, recorded-completes (record_factor meta factor key p) k)

  submit_enrolled-Completes :
      (k : Key)
      → Unlocks (submit_enrolled world meta factor key target d) k
      → Completes (get d.vault_state.partial_unlocks target) k
  submit_enrolled-Completes k h = ground (
    arith,
    still_locked k,
    submit_to-completes
        (partial_or (fresh_partial meta world.now) (get d.vault_state.partial_unlocks target)) k,
  )

  handle_factor_submit-Completes :
      (k : Key)
      → world.load_meta target ≡ ok meta
      → Unlocks (handle_factor_submit world factor key target d) k
      → Completes (get d.vault_state.partial_unlocks target) k
  unfolding handle_factor_submit
  handle_factor_submit-Completes k loaded h = submit_enrolled-Completes k (
      subst (λ o. Unlocks (submit_loaded world o factor key target d) k) loaded
        (subst (λ o. Unlocks (submit_target world factor key target o d) k) locked h))

  -- The submission is enrolled; what was received before is in time; with it, nothing that is required
  -- is missing; and the key is made of these.
  abbrev pub HasAll : Option PartialUnlock → Key → Type 0
  HasAll o k =
      let received = insert factor key (received_so_far o) in
      (contains meta.enrolled_factors factor ≡ true)
      × ((p : PartialUnlock) → o ≡ some p → is_expired world.now p ≡ false)
      × ((g : AuthFactorId)
          → contains (requirement meta).0 g ≡ true
          → (share : Key) × (get received g ≡ some share))
      × (promoted_key world meta target received ≡ k)

  Completes-HasAll :
      (o : Option PartialUnlock) (k : Key)
      → needs_all meta.auth_policy ≡ true
      → ((p : PartialUnlock) → o ≡ some p → IsTracked meta p)
      → Completes o k
      → HasAll o k
  unfolding fresh_partial
  Completes-HasAll o k needs tracked (enrolled, in_time, complete, made) = (
    enrolled,
    before o in_time,
    all_there,
    ap (promoted_key world meta target) (sym (received o)) ∙ made,
  )
    where
      p : PartialUnlock
      p = partial_or (fresh_partial meta world.now) o

      received :
          (o : Option PartialUnlock)
          → (record_factor meta factor key
              (partial_or (fresh_partial meta world.now) o)).received_factors
            ≡ insert factor key (received_so_far o)
      received none = record_factor-received meta factor key (fresh_partial meta world.now)
      received (some q) = record_factor-received meta factor key q

      before :
          (o : Option PartialUnlock)
          → is_expired world.now (partial_or (fresh_partial meta world.now) o) ≡ false
          → (q : PartialUnlock) → o ≡ some q
          → is_expired world.now q ≡ false
      before none e q h = cc
      before (some r) e q h = cc

      is_tracked :
          (o : Option PartialUnlock)
          → ((q : PartialUnlock) → o ≡ some q → IsTracked meta q)
          → IsTracked meta (partial_or (fresh_partial meta world.now) o)
      is_tracked none t = fresh_partial-IsTracked meta world.now
      is_tracked (some q) t = t q refl

      all_there :
          (g : AuthFactorId)
          → contains (requirement meta).0 g ≡ true
          → (share : Key) × (get (insert factor key (received_so_far o)) g ≡ some share)
      all_there g required =
          let (share, there) =
            record_factor-IsTracked meta factor key p needs (is_tracked o tracked) g required
              (complete-none_missing (record_factor meta factor key p) g complete) in
          (share, ap (λ m. get m g) (sym (received o)) ∙ there)

  -- A profile whose policy asks for more than any one factor, and whose metadata has stayed as it is, is
  -- unlocked by the submission of a factor only if that is enrolled and each required factor is this
  -- one or was received before, in a partial unlock that has not expired; and its key is made of what
  -- was received.
  pub handle_factor_submit-HasAll :
      (k : Key)
      → needs_all meta.auth_policy ≡ true
      → ReachesWith meta target d
      → world.load_meta target ≡ ok meta
      → get (handle_factor_submit world factor key target d).after.vault_state.master_keys target
        ≡ some k
      → HasAll (get d.vault_state.partial_unlocks target) k
  handle_factor_submit-HasAll k needs reached loaded h =
      Completes-HasAll (get d.vault_state.partial_unlocks target) k needs
        (ReachesWith-Tracks meta target needs reached) (handle_factor_submit-Completes k loaded h)
