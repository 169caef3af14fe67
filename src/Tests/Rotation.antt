-- ===== src/Tests/Rotation.antt =====
-- Tests of the rotation of keys in two phases, and an instance of its theorem.
use open_sesame.Prelude.{◌≡◌, refl, true, false, some, none, [], ◌∷◌}
use open_sesame.Prelude.Text.{Text, codes, text_eq}
use open_sesame.Prelude.Maps.{list_eq, get, insert, remove}
use open_sesame.Types.{internal}
use open_sesame.Ipc.Registry.{
  find_by_name, finalize_rotation, register_pending, promoted, DaemonIdentity,
}
use open_sesame.Profile.Daemon.{ProfileDaemon, RotationBaseline}
use open_sesame.Profile.Daemon.Rotation.{
  Keys, known_daemons, rotate_keys_phase1, rotate_keys_phase2,
}
use open_sesame.Profile.Daemon.Grace.{settled_if, rotate_keys_phase2-settled}

abbrev wm : Text
wm = codes "daemon-wm"

abbrev identity : DaemonIdentity
identity = record {
  current_pubkey = 1 ∷ [];
  pending_pubkey = none;
  security_level = internal;
  generation = 4;
}

abbrev before : ProfileDaemon
before = record {
  active_profiles = [];
  default_profile_name = codes "work";
  locked = true;
  known = [];
  registry = record { identities = (wm, identity) ∷ []; pubkey_index = (1 ∷ [], wm) ∷ [] };
  baseline = none;
}

-- The new key of a daemon ends in its name.
abbrev keys : Keys
keys name = some (2 ∷ name)

abbrev pending : ProfileDaemon
pending = (rotate_keys_phase1 keys before).1

abbrev baseline : RotationBaseline
baseline = (wm, (4, 1 ∷ [])) ∷ []

begun : pending.baseline ≡ some baseline
unfolding rotate_keys_phase1 register_pending find_by_name text_eq get insert remove
begun = refl

rotated :
    find_by_name (rotate_keys_phase2 pending).1.registry wm ≡ some (promoted (2 ∷ wm) identity)
unfolding rotate_keys_phase1 rotate_keys_phase2 register_pending finalize_rotation find_by_name
    text_eq get insert remove
rotated = refl

rotate_keys_phase2-settled_example :
    (find_by_name (rotate_keys_phase2 pending).1.registry wm
      ≡ settled_if (get known_daemons wm) (get baseline wm) (find_by_name pending.registry wm))
    × ((rotate_keys_phase2 (rotate_keys_phase2 pending).1).0 ≡ false)
rotate_keys_phase2-settled_example = rotate_keys_phase2-settled pending baseline wm begun
