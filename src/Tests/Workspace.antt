-- ===== src/Tests/Workspace.antt =====
-- Tests of references and workspaces and instances of their theorems.
use open_sesame.Prelude.{◌≡◌, ◌↔◌, refl, inl, inr, true, some, none, List, [], ◌∷◌, ◌⊎◌}
use open_sesame.Prelude.Text.{
  Text, codes, ascii, text_eq, starts_with, trim, trim_start, trim_end, is_whitespace,
}
use open_sesame.Prelude.Split.{split_once, rsplit_once, splitn}
use open_sesame.Prelude.Maps.{list_eq}
use open_sesame.Types.Oci.{OciReference, from_str, fmt, empty_provenance}
use open_sesame.Types.Oci.Form.{IsReference, from_str_iff}
use open_sesame.Workspace.Convention.{
  PathBuf, CloneTarget, regular, workspace_git, FileSystem, parse_url, canonical_path_from_url,
  canonical_path, parse_path, strip_path, target_path, parse_https, parse_ssh, validate_component,
  leading_dot, org_part,
}
use open_sesame.Workspace.Convention.Safe.{IsBelow, canonical_path_from_url-IsBelow}
use open_sesame.Workspace.Convention.Return.{parse_path-canonical_path_from_url}
use open_sesame.Workspace.Config.{
  WorkspaceConfig, EffectiveWorkspaceConfig, Loader, resolve_workspace_profile,
  resolve_effective_config,
}
use open_sesame.Workspace.Config.Layers.{
  Resolves, workspace_file, resolve_effective_config-Resolves,
}

abbrev extension : OciReference
extension = record {
  registry = codes "registry.example.com:5000";
  principal = codes "org";
  scope = codes "extension";
  revision = codes "1.0.0";
  provenance = some (codes "sha256:abc");
}

written_extension : fmt extension ≡ codes "registry.example.com:5000/org/extension:1.0.0@sha256:abc"
unfolding fmt
written_extension = refl

no_provenance : from_str (codes "r/p/s:1@") ≡ inl empty_provenance
unfolding from_str rsplit_once
no_provenance = refl

from_str_iff_example :
    (from_str (codes "registry.example.com:5000/org/extension:1.0.0@sha256:abc") ≡ inr extension)
    ↔ (IsReference extension
        × (codes "registry.example.com:5000/org/extension:1.0.0@sha256:abc" ≡ fmt extension))
from_str_iff_example =
    from_str_iff (codes "registry.example.com:5000/org/extension:1.0.0@sha256:abc") extension

abbrev root : PathBuf
root = codes "workspace" ∷ []

abbrev user : Text
user = codes "ann"

abbrev url : Text
url = codes " https://GitHub.com/org/k9.git"

abbrev clone : CloneTarget
clone = regular (codes "workspace" ∷ user ∷ codes "github.com" ∷ codes "org" ∷ codes "k9" ∷ [])

cloned : canonical_path_from_url ascii root user url ≡ inr clone
unfolding canonical_path_from_url canonical_path parse_url parse_https validate_component split_once
    splitn text_eq starts_with trim trim_start trim_end is_whitespace
cloned = refl

ssh_workspace :
    canonical_path_from_url ascii root user (codes "git@github.com:org/workspace.git")
    ≡ inr (workspace_git (codes "workspace" ∷ user ∷ codes "github.com" ∷ codes "org" ∷ []))
unfolding canonical_path_from_url canonical_path parse_url parse_ssh validate_component split_once
    splitn text_eq starts_with trim trim_start trim_end is_whitespace
ssh_workspace = refl

hidden_org :
    canonical_path_from_url ascii root user (codes "https://github.com/.ssh/k9")
    ≡ inl (leading_dot org_part)
unfolding canonical_path_from_url canonical_path parse_url parse_https validate_component split_once
    splitn text_eq starts_with trim trim_start trim_end is_whitespace
hidden_org = refl

canonical_path_from_url-IsBelow_example : IsBelow root user (target_path clone)
canonical_path_from_url-IsBelow_example =
    canonical_path_from_url-IsBelow ascii root user url clone cloned

-- Every folder is there, and a repository.
abbrev fs : FileSystem
fs = record { canonicalize = λ p. some p; is_dir = λ _. true }

parse_path-canonical_path_from_url_example :
    parse_path fs root (target_path clone) ≡ parse_url ascii url
parse_path-canonical_path_from_url_example =
    parse_path-canonical_path_from_url ascii fs root user url clone cloned
      (record { root_is_real = refl; is_real = refl; is_repository = refl })

abbrev config : WorkspaceConfig
config = record {
  user = user;
  links =
      (codes "/workspace/ann/github.com/org", codes "personal")
      ∷ (codes "/workspace/ann/github.com/org/k9", codes "work")
      ∷ (codes "/workspace/ann/github.com/org/k", codes "other")
      ∷ [];
}

longest_link : resolve_workspace_profile config (target_path clone) ≡ some (codes "work")
unfolding resolve_workspace_profile starts_with text_eq
longest_link = refl

-- The same file in both places.
abbrev same_file : Loader
same_file _ = inr (
    some (record {
      profile = none;
      env = (codes "A", codes "1") ∷ [];
      tags = codes "dev" ∷ [];
      secret_prefix = none;
    }))

abbrev org_folder : PathBuf
org_folder = codes "workspace" ∷ user ∷ codes "github.com" ∷ codes "org" ∷ []

abbrev tags_in : Text ⊎ EffectiveWorkspaceConfig → List Text
tags_in (inl e) = []
tags_in (inr r) = r.tags

-- In the folder of the workspace itself, its file is read twice.
doubled_tags :
    tags_in (resolve_effective_config fs same_file config org_folder root)
    ≡ codes "dev" ∷ codes "dev" ∷ []
unfolding resolve_effective_config resolve_workspace_profile parse_path strip_path starts_with
    text_eq
doubled_tags = refl

resolve_effective_config-Resolves_example :
    Resolves
      (workspace_file same_file root config.user (parse_path fs root (target_path clone)))
      (same_file (target_path clone))
      (resolve_workspace_profile config (target_path clone))
      (resolve_effective_config fs same_file config (target_path clone) root)
resolve_effective_config-Resolves_example =
    resolve_effective_config-Resolves fs same_file config (target_path clone) root
