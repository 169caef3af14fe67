-- ===== src/Types/Oci.antt =====
-- core-types/src/oci.rs: references to extensions and policies.
pub mod Form
use open_sesame.Prelude.{
  ℕ, ◌⊎◌, inl, inr, Bool, Option, none, some, List, [], ◌∷◌, ◌++◌, if◌then◌else◌, is_empty, length,
}
use open_sesame.Prelude.Text.{Text}
use open_sesame.Prelude.Split.{rsplit_once, splitn}

pub record OciReference : Type 0 where
  pub registry : Text
  pub principal : Text
  pub scope : Text
  pub revision : Text
  pub provenance : Option Text

-- The errors of `from_str`, with the number of segments that the text of one shows.
pub data OciError : Type 0 where
  empty_reference empty_provenance empty_revision missing_revision : OciError
  few_segments : ℕ → OciError
  empty_registry empty_principal empty_scope : OciError

abbrev pub with_segments : Text → Option Text → List Text → OciError ⊎ OciReference
with_segments revision provenance (registry ∷ principal ∷ scope ∷ more) =
    if is_empty registry
    then inl empty_registry
    else if is_empty principal
    then inl empty_principal
    else if is_empty scope
    then inl empty_scope
    else inr (record {
      registry = registry;
      principal = principal;
      scope = scope;
      revision = revision;
      provenance = provenance;
    })
with_segments revision provenance segments = inl (few_segments (length segments))

abbrev pub with_revision : Option Text → Option (Text × Text) → OciError ⊎ OciReference
with_revision provenance none = inl missing_revision
with_revision provenance (some (path, revision)) =
    if is_empty revision
    then inl empty_revision
    else with_segments revision provenance (splitn 3 b'/' path)

abbrev pub with_provenance : Text → Option (Text × Text) → OciError ⊎ OciReference
with_provenance s none = with_revision none (rsplit_once b':' s)
with_provenance s (some (main, provenance)) =
    if is_empty provenance
    then inl empty_provenance
    else with_revision (some provenance) (rsplit_once b':' main)

-- `from_str`, and `parse`.
unfoldable pub from_str : Text → OciError ⊎ OciReference
unfolding rsplit_once splitn
from_str s = if is_empty s then inl empty_reference else with_provenance s (rsplit_once b'@' s)

abbrev pub show_provenance : Text → Option Text → Text
show_provenance main none = main
show_provenance main (some provenance) = main ++ b'@' ∷ provenance

abbrev pub show_path : OciReference → Text
show_path r = r.registry ++ b'/' ∷ (r.principal ++ b'/' ∷ r.scope)

-- `registry/principal/scope:revision`.
abbrev pub show_main : OciReference → Text
show_main r = show_path r ++ b':' ∷ r.revision

unfoldable pub fmt : OciReference → Text
fmt r = show_provenance (show_main r) r.provenance
