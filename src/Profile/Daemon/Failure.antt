-- ===== src/Profile/Daemon/Failure.antt =====
-- When the shadow state stays behind: an activation whose answer is late, and a lock of all profiles.
use open_sesame.Prelude.{◌≡◌, refl, true, false, some, none, ℕ, List, [], ◌∷◌, is_empty, map}
use open_sesame.Prelude.Text.{Text}
use open_sesame.Prelude.Maps.{Map}
use open_sesame.Secrets.Unlock.{Key}
use open_sesame.Secrets.Daemon.{has, profile_activate, lock_response}
use open_sesame.Secrets.Daemon.Unlocking.{handle_lock_request}
use open_sesame.Profile.Daemon.{
  System, Call, answered, unanswered, rpc_as, confirmed_rpc, activate, is_activated,
}
use open_sesame.Profile.Daemon.Rotation.{Keys}
use open_sesame.Profile.Daemon.Handlers.{
  Outcome, handle_bus_message, activate_profile as activate_request, activate_response,
  lock_announced, announce_lock,
}
use open_sesame.Profile.Daemon.Agreement.{confirmed_rpc-IsActive}

abbrev pub late : Call → Call
late call = record call { delivery = unanswered }

abbrev pub timely : Call → Call
timely call = record call { delivery = answered }

-- The client is told that it failed and the shadow state is as it was, but the profile is active.
pub record Diverges (name : Text) (s : System) (o : Outcome) : Type 0 where
  pub told : o.reply ≡ some (activate_response false)
  pub unchanged : o.system.profile ≡ s.profile
  pub active : has name o.system.secrets.vault_state.active_profiles ≡ true

-- If the secrets daemon activates a profile but its answer comes too late, nothing takes this back: the
-- profile stays active there, while the client is told that it failed and the shadow state is as it was.
pub activate_request-Diverges :
    (names : List Text) (keys : Keys) (call again : Call) (name : Text) (target : ℕ) (s : System)
    → has name names ≡ true
    → is_activated (confirmed_rpc (timely call) (profile_activate name) s.secrets).0 ≡ true
    → Diverges name s
        (handle_bus_message names keys (late call) again (activate_request name target) s)
unfolding handle_bus_message activate confirmed_rpc rpc_as
activate_request-Diverges names keys call again name target s configured done =
    rw configured (record {
      told = refl;
      unchanged = refl;
      active = confirmed_rpc-IsActive (timely call) name s.secrets done;
    })

-- When the secrets daemon has locked all profiles, at least one of which was unlocked, the announcement
-- of it leaves the profile daemon's lock state as it was, though no profile is unlocked any more.
pub lock_announced-locked :
    (names profiles : List Text) (keys : Keys) (call again : Call) (s : System)
    → is_empty s.secrets.vault_state.master_keys ≡ false
    → (handle_lock_request none s.secrets).event ≡ some (lock_response true profiles)
    → ((handle_bus_message names keys call again
          (lock_announced true profiles)
          (record s { secrets = (handle_lock_request none s.secrets).after })).system.profile.locked
        ≡ s.profile.locked)
      × (is_empty (handle_lock_request none s.secrets).after.vault_state.master_keys ≡ true)
unfolding handle_bus_message handle_lock_request
lock_announced-locked names profiles keys call again s some_key announced =
    (by_keys s.secrets.vault_state.master_keys profiles some_key cc, refl)
  where
    by_keys :
        (m : Map Text Key) (profiles : List Text)
        → is_empty m ≡ false
        → map (λ entry. entry.0) m ≡ profiles
        → (announce_lock true profiles s.profile).locked ≡ s.profile.locked
    by_keys [] profiles h same = cc
    by_keys (entry ∷ m) [] h same = cc
    by_keys (entry ∷ m) (profile ∷ profiles) h same = refl
