-- ===== src/Workspace/Config.antt =====
-- sesame-workspace/src/config.rs: which profile a folder has, and the layers of its configuration.
pub mod Longest
pub mod Layers
use open_sesame.Prelude.{
  ℕ, ◌⊎◌, inl, inr, Bool, true, false, not, ◌&&◌, ◌||◌, Option, none, some, List, [], ◌∷◌, ◌++◌,
  map, ltb, ◌==◌, if◌then◌else◌,
}
use open_sesame.Prelude.Text.{Text, codes, text_eq, starts_with, str_len}
use open_sesame.Prelude.Maps.{Map, list_eq, get, insert, remove}
use open_sesame.Workspace.Convention.{
  PathBuf, FileSystem, WorkspaceError, WorkspaceConvention, parse_path, or_value,
}

-- core-config/src/schema_workspace.rs, what the functions read of it.
pub record WorkspaceConfig : Type 0 where
  pub user : Text
  pub links : Map Text Text

pub record LocalSesameConfig : Type 0 where
  pub profile : Option Text
  pub env : Map Text Text
  pub tags : List Text
  pub secret_prefix : Option Text

-- `Path::display` of an absolute path.
abbrev display_names : PathBuf → Text
display_names [] = []
display_names (c ∷ p) = b'/' ∷ c ++ display_names p

abbrev pub display : PathBuf → Text
display [] = codes "/"
display (c ∷ p) = display_names (c ∷ p)

abbrev ends_with : ℕ → Text → Bool
ends_with c [] = false
ends_with c (d ∷ []) = d == c
ends_with c (d ∷ e ∷ s) = ends_with c (e ∷ s)

abbrev pub is_prefix : Text → Text → Bool
is_prefix path link =
    text_eq path link
    || starts_with path (link ++ b'/' ∷ [])
    || (ends_with b'/' link && starts_with path link)

abbrev pub better : Text × Text → Option (Text × Text) → Option (Text × Text)
better link none = some link
better link (some best) = if ltb (str_len best.0) (str_len link.0) then some link else some best

abbrev pub best_match : Text → Map Text Text → Option (Text × Text) → Option (Text × Text)
best_match path [] best = best
best_match path (link ∷ links) best =
    best_match path links (if is_prefix path link.0 then better link best else best)

abbrev pub profile_of : Option (Text × Text) → Option Text
profile_of none = none
profile_of (some link) = some link.1

unfoldable pub resolve_workspace_profile : WorkspaceConfig → PathBuf → Option Text
unfolding starts_with text_eq
resolve_workspace_profile config path = profile_of (best_match (display path) config.links none)

unfoldable pub add_link : Text → Text → WorkspaceConfig → WorkspaceConfig
add_link path profile config = record config { links = insert path profile config.links }

abbrev is_some {ℓ} : {A : Type ℓ} → Option A → Bool
is_some none = false
is_some (some _) = true

unfoldable pub remove_link : Text → WorkspaceConfig → Bool × WorkspaceConfig
remove_link path config =
    (is_some (get config.links path), record config { links = remove path config.links })

pub record ConfigProvenance : Type 0 where
  pub profile_source : Text
  pub secret_prefix_source : Text

pub record EffectiveWorkspaceConfig : Type 0 where
  pub profile : Option Text
  pub env : Map Text Text
  pub tags : List Text
  pub secret_prefix : Option Text
  pub provenance : ConfigProvenance

-- `BTreeMap::extend`. The keys of a map are distinct, so that their order does not matter.
abbrev pub extend : Map Text Text → Map Text Text → Map Text Text
extend env [] = env
extend env ((key, value) ∷ more) = insert key value (extend env more)

abbrev source_of {ℓ} : {A : Type ℓ} → Option A → Text → Text → Text
source_of none source before = before
source_of (some _) source before = source

-- What a `.sesame.toml` adds.
abbrev pub layer :
    Text → Option LocalSesameConfig → EffectiveWorkspaceConfig → EffectiveWorkspaceConfig
layer source none result = result
layer source (some config) result = record {
  profile = or_value result.profile config.profile;
  env = extend result.env config.env;
  tags = result.tags ++ config.tags;
  secret_prefix = or_value result.secret_prefix config.secret_prefix;
  provenance = record {
    profile_source = source_of config.profile source result.provenance.profile_source;
    secret_prefix_source =
        source_of config.secret_prefix source result.provenance.secret_prefix_source;
  };
}

-- The layer of the links.
abbrev pub linked : Option Text → EffectiveWorkspaceConfig
linked profile = record {
  profile = profile;
  env = [];
  tags = [];
  secret_prefix = none;
  provenance = record {
    profile_source = source_of profile (codes "user config link") [];
    secret_prefix_source = [];
  };
}

-- The files: `load_local_config`, whose error is one of reading or of parsing.
abbrev pub Loader : Type 0
Loader = PathBuf → Text ⊎ Option LocalSesameConfig

abbrev pub with_layer :
    Text
    → Text ⊎ Option LocalSesameConfig
    → EffectiveWorkspaceConfig
    → Text ⊎ EffectiveWorkspaceConfig
with_layer source (inl e) result = inl e
with_layer source (inr config) result = inr (layer source config result)

abbrev pub workspace_dir : PathBuf → Text → WorkspaceConvention → PathBuf
workspace_dir root user conv = root ++ user ∷ conv.server ∷ conv.org ∷ []

abbrev pub workspace_layer :
    Loader
    → PathBuf
    → Text
    → WorkspaceError ⊎ WorkspaceConvention
    → EffectiveWorkspaceConfig
    → Text ⊎ EffectiveWorkspaceConfig
workspace_layer load root user (inl e) result = inr result
workspace_layer load root user (inr conv) result =
    with_layer (codes "workspace .sesame.toml") (load (workspace_dir root user conv)) result

abbrev pub repo_layer :
    Loader → PathBuf → Text ⊎ EffectiveWorkspaceConfig → Text ⊎ EffectiveWorkspaceConfig
repo_layer load path (inl e) = inl e
repo_layer load path (inr result) = with_layer (codes "repo .sesame.toml") (load path) result

unfoldable pub resolve_effective_config :
    FileSystem → Loader → WorkspaceConfig → PathBuf → PathBuf → Text ⊎ EffectiveWorkspaceConfig
unfolding resolve_workspace_profile parse_path
resolve_effective_config fs load config path root = repo_layer load path (
    workspace_layer load root config.user (parse_path fs root path)
      (linked (resolve_workspace_profile config path)))
