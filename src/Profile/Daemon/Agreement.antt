-- ===== src/Profile/Daemon/Agreement.antt =====
-- When the shadow state agrees with the secrets daemon.
use open_sesame.Prelude.{
  ℕ, ◌≡◌, refl, sym, ap, ◌∙◌, inl, inr, Bool, true, false, not, Bool-cases, Option, none, some,
  List, [], ◌∷◌, ◌++◌, if◌then◌else◌, is_empty, arith,
}
use open_sesame.Prelude.Text.{Text, codes, text_eq_refl}
use open_sesame.Prelude.Maps.{list_eq, get}
use open_sesame.Secrets.Unlock.{Key}
use open_sesame.Secrets.Daemon.{
  Outcome, ok, err, Vault, World, VaultState, Daemon, Message, Event, Request, Handled, has,
  insert_name, profile_activate,
}
use open_sesame.Secrets.Daemon.Opening.{vault_for, activate_profile}
use open_sesame.Secrets.Daemon.Crud.{
  activated, activate_unlocked, handle_profile_activate, is_from, ignored,
}
use open_sesame.Secrets.Daemon.Access.{vault_for-active_profiles, vault_for-has}
use open_sesame.Secrets.Daemon.Dispatch.{
  handle, handle_message, handle_secrets_state_request, post_dispatch,
}
use open_sesame.Secrets.Daemon.Bounded.{IsUnlocked}
use open_sesame.Secrets.Daemon.History.{Reaches, handled, Reaches-IsBounded}
use open_sesame.Profile.Daemon.{
  ProfileDaemon, System, Call, Delivery, not_sent, unanswered, garbled, answered, rpc_as,
  confirmed_rpc, activate, activate_confirmed, is_activated, response_in,
}
use open_sesame.Profile.Daemon.Handlers.{
  activate_profile as activate_request, handle_bus_message, reconcile_secrets_state, after_activate,
  activate_response,
}
use open_sesame.Profile.Daemon.Rotation.{Keys}

-- The shadow state after a reconciliation.
abbrev pub Agrees : Delivery → System → ProfileDaemon → Type 0
Agrees answered s p =
    (p.locked ≡ is_empty s.secrets.vault_state.master_keys)
    × (p.active_profiles ≡ s.secrets.vault_state.active_profiles)
Agrees garbled s p = p ≡ s.profile
Agrees _ s p = (p.locked ≡ true) × (p.active_profiles ≡ [])

-- A reconciliation changes nothing of the secrets daemon. If it is answered, the shadow state is the
-- secrets daemon's; if the secrets daemon is not there or late, all is taken to be locked, and if
-- something else comes, the shadow state stays.
pub reconcile_secrets_state-Agrees :
    (call : Call) (s : System)
    → ((reconcile_secrets_state call s).secrets ≡ s.secrets)
      × Agrees call.delivery s (reconcile_secrets_state call s).profile
unfolding reconcile_secrets_state confirmed_rpc rpc_as handle_message handle
    handle_secrets_state_request
reconcile_secrets_state-Agrees call s = by_delivery call.delivery
  where
    by_delivery :
        (d : Delivery)
        → ((reconcile_secrets_state (record call { delivery = d }) s).secrets ≡ s.secrets)
          × Agrees d s (reconcile_secrets_state (record call { delivery = d }) s).profile
    by_delivery not_sent = (refl, (refl, refl))
    by_delivery unanswered = (refl, (refl, refl))
    by_delivery garbled = (refl, refl)
    by_delivery answered = (refl, (refl, refl))

-- The answer to the message that a handler was given.
abbrev response_of : Handled → Option Event
response_of h = response_in (h.sent ++ post_dispatch h.event)

module _ (world : World) (msg : Message) (profile : Text) (d : Daemon) where
  abbrev IsActive : Handled → Type 0
  IsActive h =
      is_activated (response_of h) ≡ true → has profile h.after.vault_state.active_profiles ≡ true

  activated-IsActive :
      (r : Outcome Vault × VaultState)
      → r ≡ vault_for world profile (activate_profile profile d.vault_state)
      → IsActive (activated profile d r)
  activated-IsActive (err e, s) same h = cc
  activated-IsActive (ok vault, s) same h =
      let from_vault : (vault_for world profile (activate_profile profile d.vault_state)).0
          ≡ ok vault =
        ap (λ r. r.0) (sym same) in
      ap (λ r. has profile r.1.active_profiles) same
      ∙ (ap (has profile)
            (vault_for-active_profiles world profile (activate_profile profile d.vault_state))
          ∙ vault_for-has world profile (activate_profile profile d.vault_state) vault from_vault)

  activate_unlocked-IsActive : (o : Option Key) → IsActive (activate_unlocked world profile o d)
  activate_unlocked-IsActive none h = cc
  activate_unlocked-IsActive (some key) h =
      activated-IsActive (vault_for world profile (activate_profile profile d.vault_state)) refl h

  handle_profile_activate-IsActive : IsActive (handle_profile_activate world msg profile d)
  unfolding handle_profile_activate
  handle_profile_activate-IsActive h =
      by_sender (is_from (codes "daemon-profile") msg.verified_sender_name) h
    where
      by_sender :
          (b : Bool)
          → IsActive (
              if not b
              then ignored d
              else activate_unlocked world profile (get d.vault_state.master_keys profile) d)
      by_sender false h = cc
      by_sender true h = activate_unlocked-IsActive (get d.vault_state.master_keys profile) h

pub confirmed_rpc-IsActive :
    (call : Call) (name : Text) (d : Daemon)
    → is_activated (confirmed_rpc call (profile_activate name) d).0 ≡ true
    → has name (confirmed_rpc call (profile_activate name) d).1.vault_state.active_profiles ≡ true
unfolding confirmed_rpc rpc_as handle_message handle
confirmed_rpc-IsActive call name d h = by_delivery call.delivery h
  where
    by_delivery :
        (e : Delivery)
        → is_activated (confirmed_rpc (record call { delivery = e }) (profile_activate name) d).0
          ≡ true
        → has name
            (confirmed_rpc
              (record call { delivery = e })
              (profile_activate name)
              d).1.vault_state.active_profiles
          ≡ true
    by_delivery not_sent h = cc
    by_delivery unanswered h = cc
    by_delivery garbled h = cc
    by_delivery answered h = handle_profile_activate-IsActive call.world _ name d h

confirmed_rpc-Reaches :
    (call : Call) (request : Request) (d : Daemon)
    → Reaches d
    → Reaches (confirmed_rpc call request d).1
unfolding confirmed_rpc rpc_as
confirmed_rpc-Reaches call request d r = by_delivery call.delivery
  where
    by_delivery :
        (e : Delivery) → Reaches (confirmed_rpc (record call { delivery = e }) request d).1
    by_delivery not_sent = r
    by_delivery unanswered = handled call.world call.context _ r
    by_delivery garbled = handled call.world call.context _ r
    by_delivery answered = handled call.world call.context _ r

insert_name-has : (name : Text) (names : List Text) → has name (insert_name name names) ≡ true
insert_name-has name names = by_case (has name names) refl
  where
    by_case : (b : Bool) → has name names ≡ b → has name (if b then names else name ∷ names) ≡ true
    by_case true e = e
    by_case false e = rw (text_eq_refl name) refl

-- A profile that both daemons take as active, and that is unlocked.
pub record IsActiveInBoth (name : Text) (s : System) : Type 0 where
  pub in_shadow : has name s.profile.active_profiles ≡ true
  pub in_secrets : has name s.secrets.vault_state.active_profiles ≡ true
  pub unlocked : IsUnlocked s.secrets.vault_state name

after_activate-IsActiveInBoth :
    (call : Call) (target : ℕ) (name : Text) (s : System) (r : Option Event × Daemon)
    → Reaches r.1
    → (is_activated r.0 ≡ true → has name r.1.vault_state.active_profiles ≡ true)
    → (after_activate name s (activate_confirmed call target name r)).reply
      ≡ some (activate_response true)
    → IsActiveInBoth name (after_activate name s (activate_confirmed call target name r)).system
after_activate-IsActiveInBoth call target name s (response, secrets) reached active h =
    elim (Bool-cases (is_activated response)) [
      | inl done ↦ rw done (record {
        in_shadow = insert_name-has name s.profile.active_profiles;
        in_secrets = active done;
        unlocked = (Reaches-IsBounded reached).active name (active done);
      })
      | inr refused ↦ absurd (differ refused h)
    ]
  where
    differ :
        is_activated response ≡ false
        → (after_activate name s (activate_confirmed call target name (response, secrets))).reply
          ≡ some (activate_response true)
        → ⊥
    differ refused e = ground arith

-- If the profile daemon answers that a profile was activated, it is a configured one, active for the
-- secrets daemon as for the profile daemon, and unlocked.
pub activate_request-IsActiveInBoth :
    (names : List Text) (keys : Keys) (call again : Call) (name : Text) (target : ℕ) (s : System)
    → Reaches s.secrets
    → (handle_bus_message names keys call again (activate_request name target) s).reply
      ≡ some (activate_response true)
    → (has name names ≡ true)
      × IsActiveInBoth name
          (handle_bus_message names keys call again (activate_request name target) s).system
unfolding handle_bus_message activate
activate_request-IsActiveInBoth names keys call again name target s reached h =
    elim (Bool-cases (has name names)) [
      | inl configured ↦ (
        configured,
        rw configured (
            after_activate-IsActiveInBoth call target name s
              (confirmed_rpc call (profile_activate name) s.secrets)
              (confirmed_rpc-Reaches call (profile_activate name) s.secrets reached)
              (confirmed_rpc-IsActive call name s.secrets) (rw configured at h)),
      )
      | inr unknown ↦ absurd (differ unknown h)
    ]
  where
    differ :
        has name names ≡ false
        → (handle_bus_message names keys call again (activate_request name target) s).reply
          ≡ some (activate_response true)
        → ⊥
    differ unknown e = ground arith
