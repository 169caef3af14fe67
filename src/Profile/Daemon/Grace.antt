-- ===== src/Profile/Daemon/Grace.antt =====
-- What the second phase of a rotation does, after the grace period, to each daemon's key.
use open_sesame.Prelude.{
  ℕ, ◌+◌, ◌%◌, ◌^◌, ◌≡◌, ◌≢◌, refl, ap, ◌∙◌, inl, inr, Bool, false, not, Bool-cases, Option, some,
  none, [], ◌∷◌, if◌then◌else◌, ◌==◌,
}
use open_sesame.Prelude.Text.{Text, text_eq, text_eq_refl}
use open_sesame.Prelude.Maps.{Map, list_eq, get, get-insert, get-insert_ne, key-cases, beq-ne}
use open_sesame.Types.{SecurityLevel}
use open_sesame.Ipc.Registry.{
  ClearanceRegistry, DaemonIdentity, Pubkey, find_by_name, finalize_rotation, promoted,
  promote_pending,
}
use open_sesame.Profile.Daemon.{ProfileDaemon, RotationBaseline}
use open_sesame.Profile.Daemon.Rotation.{
  known_daemons, baseline_generation, same_generation, generation_of, finalize, finalize_all,
  rotate_keys_phase2,
}

abbrev with_key : DaemonIdentity → Option Pubkey → DaemonIdentity
with_key id none = id
with_key id (some key) = record {
  current_pubkey = key;
  pending_pubkey = none;
  security_level = id.security_level;
  generation = (id.generation + 1) % 2 ^ 64;
}

-- A daemon of the same generation as in the baseline has its pending key, if any; another is as it was.
abbrev settled : Option (ℕ × Pubkey) → Option DaemonIdentity → Option DaemonIdentity
settled none found = found
settled (some entry) none = none
settled (some entry) (some id) =
    if id.generation == entry.0 then some (with_key id id.pending_pubkey) else some id

-- So it is for the known daemons, and any other is as it was.
abbrev pub settled_if :
    Option SecurityLevel → Option (ℕ × Pubkey) → Option DaemonIdentity → Option DaemonIdentity
settled_if none before found = found
settled_if (some level) before found = settled before found

-- The same by the test that the second phase makes.
abbrev settled_by : Option ℕ → Option DaemonIdentity → Option DaemonIdentity
settled_by before none = none
settled_by before (some id) =
    if same_generation (some id.generation) before
    then some (with_key id id.pending_pubkey)
    else some id

settled_by_lem :
    (before : Option (ℕ × Pubkey)) (found : Option DaemonIdentity)
    → settled_by (baseline_generation before) found ≡ settled before found
settled_by_lem none none = refl
settled_by_lem none (some id) = refl
settled_by_lem (some entry) none = refl
settled_by_lem (some entry) (some id) = refl

abbrev finalize_found : Text → Option DaemonIdentity → ClearanceRegistry → Bool × ClearanceRegistry
finalize_found name none r = (false, r)
finalize_found name (some id) r = promote_pending name id id.pending_pubkey r

finalize_rotation_lem :
    (name : Text) (r : ClearanceRegistry)
    → finalize_rotation name r ≡ finalize_found name (find_by_name r name) r
unfolding finalize_rotation find_by_name
finalize_rotation_lem name r = by_found (get r.identities name) refl
  where
    by_found :
        (o : Option DaemonIdentity)
        → get r.identities name ≡ o
        → finalize_rotation name r ≡ finalize_found name o r
    by_found none found = rw (found, finalize_rotation) refl
    by_found (some id) found = rw (found, finalize_rotation) refl

finalize_found_self :
    (name : Text) (r : ClearanceRegistry) (id : DaemonIdentity)
    → find_by_name r name ≡ some id
    → find_by_name (finalize_found name (some id) r).1 name ≡ some (with_key id id.pending_pubkey)
unfolding find_by_name
finalize_found_self name r id found = by_key id.pending_pubkey
  where
    by_key :
        (key : Option Pubkey)
        → get (promote_pending name id key r).1.identities name ≡ some (with_key id key)
    by_key none = found
    by_key (some key) = get-insert name (promoted key id) r.identities

finalize_found_other :
    (name other : Text) (r : ClearanceRegistry) (o : Option DaemonIdentity)
    → name ≢ other
    → find_by_name (finalize_found name o r).1 other ≡ find_by_name r other
unfolding find_by_name
finalize_found_other name other r none ne = refl
finalize_found_other name other r (some id) ne = by_key id.pending_pubkey
  where
    by_key :
        (key : Option Pubkey)
        → get (promote_pending name id key r).1.identities other ≡ get r.identities other
    by_key none = refl
    by_key (some key) = get-insert_ne name other (promoted key id) r.identities ne

finalize_self :
    (baseline : RotationBaseline) (name : Text) (r : ClearanceRegistry)
    → find_by_name (finalize baseline name r) name
      ≡ settled (get baseline name) (find_by_name r name)
finalize_self baseline name r =
    by_found (find_by_name r name) (baseline_generation (get baseline name)) refl
    ∙ settled_by_lem (get baseline name) (find_by_name r name)
  where
    by_found :
        (o : Option DaemonIdentity) (before : Option ℕ)
        → find_by_name r name ≡ o
        → find_by_name
            (if not (same_generation (generation_of (find_by_name r name)) before)
              then r
              else (finalize_rotation name r).1)
            name
          ≡ settled_by before (find_by_name r name)
    by_found none none found = rw (finalize_rotation_lem name r, found) found
    by_found none (some n) found = rw found found
    by_found (some id) before found =
        elim (Bool-cases (same_generation (some id.generation) before)) [
          | inl same ↦
              rw (found, same, finalize_rotation_lem name r, found)
                (finalize_found_self name r id found)
          | inr changed ↦ rw (found, changed) found
        ]

finalize_other :
    (baseline : RotationBaseline) (name other : Text) (r : ClearanceRegistry)
    → name ≢ other
    → find_by_name (finalize baseline name r) other ≡ find_by_name r other
finalize_other baseline name other r ne =
    elim (Bool-cases (
      same_generation (generation_of (find_by_name r name))
        (baseline_generation (get baseline name)))) [
          | inl same ↦
              rw (same, finalize_rotation_lem name r)
                (finalize_found_other name other r (find_by_name r name) ne)
          | inr changed ↦ rw changed refl
        ]

-- Names that occur once.
abbrev IsDistinct : Map Text SecurityLevel → Type 0
IsDistinct [] = Unit
IsDistinct ((name, level) ∷ daemons) = (get daemons name ≡ none) × IsDistinct daemons

finalize_all-unknown :
    (baseline : RotationBaseline) (daemons : Map Text SecurityLevel) (name : Text)
    (r : ClearanceRegistry)
    → get daemons name ≡ none
    → find_by_name (finalize_all baseline daemons r) name ≡ find_by_name r name
unfolding get
finalize_all-unknown baseline [] name r unknown = refl
finalize_all-unknown baseline ((first, level) ∷ daemons) name r unknown =
    elim (key-cases first name) [
      | inl same ↦ let h : some level ≡ none = (rw (same, text_eq_refl name) at unknown) in cc
      | inr ne ↦
          finalize_all-unknown baseline daemons name (finalize baseline first r)
            (rw (beq-ne first name ne) at unknown)
          ∙ finalize_other baseline first name r ne
    ]

finalize_all-settled :
    (baseline : RotationBaseline) (daemons : Map Text SecurityLevel) (name : Text)
    (r : ClearanceRegistry)
    → IsDistinct daemons
    → find_by_name (finalize_all baseline daemons r) name
      ≡ settled_if (get daemons name) (get baseline name) (find_by_name r name)
unfolding get
finalize_all-settled baseline [] name r distinct = refl
finalize_all-settled baseline ((first, level) ∷ daemons) name r (once, distinct) =
    elim (key-cases first name) [
      | inl same ↦
          rw (same, text_eq_refl name)
            (finalize_all-unknown baseline daemons name (finalize baseline name r) (rw same at once)
              ∙ finalize_self baseline name r)
      | inr ne ↦ rw (beq-ne first name ne) (
          finalize_all-settled baseline daemons name (finalize baseline first r) distinct
          ∙ ap (settled_if (get daemons name) (get baseline name))
              (finalize_other baseline first name r ne))
    ]

known_daemons-IsDistinct : IsDistinct known_daemons
unfolding get text_eq
known_daemons-IsDistinct = (refl, (refl, (refl, (refl, (refl, (refl, tt))))))

-- The second phase of a rotation, after the first: a known daemon whose generation is still that of the
-- first phase has its pending key, if any, as its current one and none pending, with its clearance and
-- the next generation, which is one more as far as a word goes; one whose generation is another by now,
-- and any other, is as it was. The baseline is gone, so that no rotation is finished twice.
pub rotate_keys_phase2-settled :
    (p : ProfileDaemon) (baseline : RotationBaseline) (name : Text)
    → p.baseline ≡ some baseline
    → (find_by_name (rotate_keys_phase2 p).1.registry name
        ≡ settled_if (get known_daemons name) (get baseline name) (find_by_name p.registry name))
      × ((rotate_keys_phase2 (rotate_keys_phase2 p).1).0 ≡ false)
unfolding rotate_keys_phase2
rotate_keys_phase2-settled p baseline name begun =
    rw begun
      (finalize_all-settled baseline known_daemons name p.registry known_daemons-IsDistinct, refl)
