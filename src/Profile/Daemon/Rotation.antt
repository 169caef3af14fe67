-- ===== src/Profile/Daemon/Rotation.antt =====
-- daemon-profile/src/key_rotation.rs: the rotation of all daemons' keys in two phases.
use open_sesame.Prelude.{
  ℕ, Bool, true, false, not, Option, none, some, List, [], ◌∷◌, ◌++◌, ◌==◌, if◌then◌else◌,
}
use open_sesame.Prelude.Text.{Text, codes}
use open_sesame.Prelude.Maps.{Map, list_eq, get, insert}
use open_sesame.Types.{SecurityLevel, internal, secrets_only}
use open_sesame.Ipc.Registry.{
  ClearanceRegistry, DaemonIdentity, Pubkey, find_by_name, register_pending, finalize_rotation,
}
use open_sesame.Profile.Daemon.{
  ProfileDaemon, RotationBaseline, Effect, logged, announced, key_rotation_started,
  key_rotation_completed, key_rotation_pending, key_rotation_complete,
}

abbrev pub known_daemons : Map Text SecurityLevel
known_daemons =
    (codes "daemon-secrets", secrets_only)
    ∷ (codes "daemon-wm", internal)
    ∷ (codes "daemon-launcher", internal)
    ∷ (codes "daemon-clipboard", internal)
    ∷ (codes "daemon-input", internal)
    ∷ (codes "daemon-snippets", internal)
    ∷ []

-- The key that is made for a daemon and written to its file, if both can be done.
abbrev pub Keys : Type 0
Keys = Text → Option Pubkey

abbrev generation_or_zero : Option DaemonIdentity → ℕ
generation_or_zero none = 0
generation_or_zero (some id) = id.generation

abbrev remember : Text → Option DaemonIdentity → RotationBaseline → RotationBaseline
remember name none baseline = baseline
remember name (some id) baseline = insert name (id.generation, id.current_pubkey) baseline

-- What a phase has done so far: the registry, the baseline and the effects.
pub record Progress : Type 0 where
  pub registry : ClearanceRegistry
  pub baseline : RotationBaseline
  pub effects : List Effect

abbrev prepare : Text → Pubkey → Progress → Progress
prepare name key r =
    let id = find_by_name r.registry name in
    record {
      registry = (register_pending name key r.registry).1;
      baseline = remember name id r.baseline;
      effects =
          r.effects
          ++ (announced (key_rotation_pending name key)
              ∷ logged (key_rotation_started name (generation_or_zero id))
              ∷ []);
    }

-- `prepare` for each daemon, up to the first whose key cannot be made.
abbrev prepare_next :
    Text → Option Pubkey → Progress → (Progress → Bool × Progress) → Bool × Progress
prepare_next name none r rest = (false, r)
prepare_next name (some key) r rest = rest (prepare name key r)

abbrev prepare_all : Keys → Map Text SecurityLevel → Progress → Bool × Progress
prepare_all keys [] r = (true, r)
prepare_all keys ((name, level) ∷ daemons) r =
    prepare_next name (keys name) r (λ next. prepare_all keys daemons next)

abbrev keep_baseline : ProfileDaemon → Bool × Progress → Bool × ProfileDaemon × List Effect
keep_baseline p (false, r) = (false, record p { registry = r.registry }, r.effects)
keep_baseline p (true, r) =
    (true, record p { registry = r.registry; baseline = some r.baseline }, r.effects)

-- Whether it was done; only then the baseline is kept.
unfoldable pub rotate_keys_phase1 : Keys → ProfileDaemon → Bool × ProfileDaemon × List Effect
unfolding find_by_name register_pending
rotate_keys_phase1 keys p =
    keep_baseline p (
      prepare_all keys known_daemons
        (record { registry = p.registry; baseline = []; effects = [] }))

abbrev pub generation_of : Option DaemonIdentity → Option ℕ
generation_of none = none
generation_of (some id) = some id.generation

abbrev pub baseline_generation : Option (ℕ × Pubkey) → Option ℕ
baseline_generation none = none
baseline_generation (some entry) = some entry.0

abbrev pub same_generation : Option ℕ → Option ℕ → Bool
same_generation none none = true
same_generation none (some n) = false
same_generation (some m) none = false
same_generation (some m) (some n) = m == n

abbrev pub finalize : RotationBaseline → Text → ClearanceRegistry → ClearanceRegistry
finalize baseline name registry =
    if not (
      same_generation (generation_of (find_by_name registry name))
        (baseline_generation (get baseline name)))
    then registry
    else (finalize_rotation name registry).1

abbrev pub finalize_all :
    RotationBaseline → Map Text SecurityLevel → ClearanceRegistry → ClearanceRegistry
finalize_all baseline [] registry = registry
finalize_all baseline ((name, level) ∷ daemons) registry =
    finalize_all baseline daemons (finalize baseline name registry)

abbrev completions : ClearanceRegistry → Map Text SecurityLevel → List Effect
completions registry [] = []
completions registry ((name, level) ∷ daemons) =
    announced (key_rotation_complete name)
    ∷ logged (key_rotation_completed name (generation_or_zero (find_by_name registry name)))
    ∷ completions registry daemons

abbrev pub finalized : ProfileDaemon → Option RotationBaseline → Bool × ProfileDaemon × List Effect
finalized p none = (false, p, [])
finalized p (some baseline) =
    let registry = finalize_all baseline known_daemons p.registry in
    (true, record p { registry = registry; baseline = none }, completions registry known_daemons)

unfoldable pub rotate_keys_phase2 : ProfileDaemon → Bool × ProfileDaemon × List Effect
unfolding find_by_name finalize_rotation
rotate_keys_phase2 p = finalized p p.baseline
