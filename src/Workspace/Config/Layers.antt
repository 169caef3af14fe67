-- ===== src/Workspace/Config/Layers.antt =====
-- Which layer each value of a folder's configuration is from.
use mathlib.Core.List.{append-nil}
use open_sesame.Prelude.{
  ◌≡◌, refl, sym, ap, ◌∙◌, subst, ◌⊎◌, inl, inr, Option, none, some, List, [], ◌∷◌, ◌++◌,
}
use open_sesame.Prelude.Text.{Text, codes, text_eq_iff}
use open_sesame.Prelude.Maps.{
  Map, list_eq, get, insert, get-insert, get-insert_ne, key-cases, beq-ne,
}
use open_sesame.Workspace.Convention.{
  PathBuf, FileSystem, WorkspaceError, WorkspaceConvention, parse_path, or_value,
}
use open_sesame.Workspace.Config.{
  WorkspaceConfig, LocalSesameConfig, EffectiveWorkspaceConfig, Loader, layer, linked, with_layer,
  workspace_layer, repo_layer, workspace_dir, extend, source_of, resolve_workspace_profile,
  resolve_effective_config,
}

module _ {ℓ} {A : Type ℓ} where
  -- The first layer that has a value, the most specific one first.
  abbrev most_specific : List (Option A) → Option A
  most_specific [] = none
  most_specific (none ∷ values) = most_specific values
  most_specific (some a ∷ values) = some a

  -- The name of that layer.
  abbrev name_of : List (Text × Option A) → Text
  name_of [] = []
  name_of ((name, none) ∷ layers) = name_of layers
  name_of ((name, some a) ∷ layers) = name

  -- What a file says, if it is there.
  abbrev said : (LocalSesameConfig → Option A) → Option LocalSesameConfig → Option A
  said field none = none
  said field (some config) = field config

abbrev tags_of : Option LocalSesameConfig → List Text
tags_of none = []
tags_of (some config) = config.tags

abbrev repo_name : Text
repo_name = codes "repo .sesame.toml"

abbrev workspace_name : Text
workspace_name = codes "workspace .sesame.toml"

-- The configuration of the file in the repository, the one in the workspace, and the link.
pub record IsLayered (repo workspace : Option LocalSesameConfig) (link : Option Text)
    (r : EffectiveWorkspaceConfig) : Type 0 where
  pub profile :
      r.profile
      ≡ most_specific (said (λ c. c.profile) repo ∷ said (λ c. c.profile) workspace ∷ link ∷ [])
  pub profile_source :
      r.provenance.profile_source
      ≡ name_of (
          (repo_name, said (λ c. c.profile) repo)
          ∷ (workspace_name, said (λ c. c.profile) workspace)
          ∷ (codes "user config link", link)
          ∷ [])
  pub secret_prefix :
      r.secret_prefix
      ≡ most_specific
          (said (λ c. c.secret_prefix) repo ∷ said (λ c. c.secret_prefix) workspace ∷ [])
  pub secret_prefix_source :
      r.provenance.secret_prefix_source
      ≡ name_of (
          (repo_name, said (λ c. c.secret_prefix) repo)
          ∷ (workspace_name, said (λ c. c.secret_prefix) workspace)
          ∷ [])
  pub env :
      (key : Text)
      → get r.env key
        ≡ most_specific (said (λ c. get c.env key) repo ∷ said (λ c. get c.env key) workspace ∷ [])
  pub tags : r.tags ≡ tags_of workspace ++ tags_of repo

get-extend :
    (env more : Map Text Text) (key : Text)
    → get (extend env more) key ≡ or_value (get env key) (get more key)
unfolding get
get-extend env [] key = refl
get-extend env ((k, v) ∷ more) key = elim (key-cases k key) [
  | inl same ↦ rw ((text_eq_iff k key).1 same) (
      subst (λ j. get (insert k v (extend env more)) j ≡ some v) same
        (get-insert k v (extend env more)))
  | inr other ↦
      rw (beq-ne k key other)
        (get-insert_ne k key v (extend env more) other ∙ get-extend env more key)
]

-- A value through the layers.
through :
    {A : Type 0} (a b c : Option A) → or_value (or_value a b) c ≡ most_specific (c ∷ b ∷ a ∷ [])
through a b (some z) = refl
through a (some y) none = refl
through (some x) none none = refl
through none none none = refl

through_names :
    {A : Type 0} (a b c : Option A) (m n o : Text)
    → source_of c o (source_of b n (source_of a m [])) ≡ name_of ((o, c) ∷ (n, b) ∷ (m, a) ∷ [])
through_names a b (some z) m n o = refl
through_names a (some y) none m n o = refl
through_names (some x) none none m n o = refl
through_names none none none m n o = refl

through_two :
    {A : Type 0} (b c : Option A) → or_value (or_value none b) c ≡ most_specific (c ∷ b ∷ [])
through_two b (some z) = refl
through_two (some y) none = refl
through_two none none = refl

through_two_names :
    {A : Type 0} (b c : Option A) (n o : Text)
    → source_of c o (source_of b n []) ≡ name_of ((o, c) ∷ (n, b) ∷ [])
through_two_names b (some z) n o = refl
through_two_names (some y) none n o = refl
through_two_names none none n o = refl

module _ (source : Text) (result : EffectiveWorkspaceConfig) where
  layer-profile :
      (o : Option LocalSesameConfig)
      → (layer source o result).profile ≡ or_value result.profile (said (λ c. c.profile) o)
  layer-profile none = refl
  layer-profile (some c) = refl

  layer-secret_prefix :
      (o : Option LocalSesameConfig)
      → (layer source o result).secret_prefix
        ≡ or_value result.secret_prefix (said (λ c. c.secret_prefix) o)
  layer-secret_prefix none = refl
  layer-secret_prefix (some c) = refl

  layer-profile_source :
      (o : Option LocalSesameConfig)
      → (layer source o result).provenance.profile_source
        ≡ source_of (said (λ c. c.profile) o) source result.provenance.profile_source
  layer-profile_source none = refl
  layer-profile_source (some c) = refl

  layer-secret_prefix_source :
      (o : Option LocalSesameConfig)
      → (layer source o result).provenance.secret_prefix_source
        ≡ source_of (said (λ c. c.secret_prefix) o) source result.provenance.secret_prefix_source
  layer-secret_prefix_source none = refl
  layer-secret_prefix_source (some c) = refl

  layer-env :
      (o : Option LocalSesameConfig) (key : Text)
      → get (layer source o result).env key
        ≡ or_value (get result.env key) (said (λ c. get c.env key) o)
  layer-env none key = refl
  layer-env (some c) key = get-extend result.env c.env key

  layer-tags :
      (o : Option LocalSesameConfig) → (layer source o result).tags ≡ result.tags ++ tags_of o
  layer-tags none = sym (append-nil result.tags)
  layer-tags (some c) = refl

layers-IsLayered :
    (repo workspace : Option LocalSesameConfig) (link : Option Text)
    → IsLayered repo workspace link
        (layer repo_name repo (layer workspace_name workspace (linked link)))
unfolding get
layers-IsLayered repo workspace link = record {
  profile =
      layer-profile repo_name below repo
      ∙ (ap (λ p. or_value p (said (λ c. c.profile) repo))
            (layer-profile workspace_name (linked link) workspace)
          ∙ through link _ _);
  profile_source =
      layer-profile_source repo_name below repo
      ∙ (ap (source_of (said (λ c. c.profile) repo) repo_name)
            (layer-profile_source workspace_name (linked link) workspace)
          ∙ through_names link (said (λ c. c.profile) workspace) (said (λ c. c.profile) repo)
              (codes "user config link") workspace_name repo_name);
  secret_prefix =
      layer-secret_prefix repo_name below repo
      ∙ (ap (λ p. or_value p (said (λ c. c.secret_prefix) repo))
            (layer-secret_prefix workspace_name (linked link) workspace)
          ∙ through_two _ _);
  secret_prefix_source =
      layer-secret_prefix_source repo_name below repo
      ∙ (ap (source_of (said (λ c. c.secret_prefix) repo) repo_name)
            (layer-secret_prefix_source workspace_name (linked link) workspace)
          ∙ through_two_names (said (λ c. c.secret_prefix) workspace)
              (said (λ c. c.secret_prefix) repo) workspace_name repo_name);
  env = λ key.
      layer-env repo_name below repo key
      ∙ (ap (λ p. or_value p (said (λ c. get c.env key) repo))
            (layer-env workspace_name (linked link) workspace key)
          ∙ through_two _ _);
  tags =
      layer-tags repo_name below repo
      ∙ ap (λ t. t ++ tags_of repo) (layer-tags workspace_name (linked link) workspace);
}
  where
    below : EffectiveWorkspaceConfig
    below = layer workspace_name workspace (linked link)

-- The file of the workspace that the folder lies in, if it lies in one.
abbrev pub workspace_file :
    Loader → PathBuf → Text → WorkspaceError ⊎ WorkspaceConvention → Text ⊎ Option LocalSesameConfig
workspace_file load root user (inl e) = inr none
workspace_file load root user (inr conv) = load (workspace_dir root user conv)

-- The error of the file that is read first and cannot be, or the layers of both.
abbrev pub Resolves :
    Text ⊎ Option LocalSesameConfig
    → Text ⊎ Option LocalSesameConfig
    → Option Text
    → Text ⊎ EffectiveWorkspaceConfig
    → Type 0
Resolves (inl e) repo link result = result ≡ inl e
Resolves (inr workspace) (inl e) link result = result ≡ inl e
Resolves (inr workspace) (inr repo) link result =
    (r : EffectiveWorkspaceConfig) × (result ≡ inr r) × IsLayered repo workspace link r

module _ (fs : FileSystem) (load : Loader) (config : WorkspaceConfig) (path root : PathBuf) where
  repo-Resolves :
      (workspace repo : Text ⊎ Option LocalSesameConfig)
      → load path ≡ repo
      → Resolves workspace repo (resolve_workspace_profile config path) (
          repo_layer load path
            (with_layer workspace_name workspace (linked (resolve_workspace_profile config path))))
  repo-Resolves (inl e) repo h = refl
  repo-Resolves (inr workspace) (inl e) h = rw h refl
  repo-Resolves (inr workspace) (inr repo) h =
      (_, rw h refl, layers-IsLayered repo workspace (resolve_workspace_profile config path))

  -- Each value of the configuration is that of the most specific layer that has one: the repository's
  -- file, the workspace's, the link of the user; it tells which layer that was, and the tags are those of
  -- both files. A file that cannot be read is the error, the workspace's first.
  pub resolve_effective_config-Resolves :
      Resolves
        (workspace_file load root config.user (parse_path fs root path))
        (load path)
        (resolve_workspace_profile config path)
        (resolve_effective_config fs load config path root)
  unfolding resolve_effective_config
  resolve_effective_config-Resolves = found (parse_path fs root path)
    where
      link : Option Text
      link = resolve_workspace_profile config path

      found :
          (r : WorkspaceError ⊎ WorkspaceConvention)
          → Resolves
              (workspace_file load root config.user r)
              (load path)
              link
              (repo_layer load path (workspace_layer load root config.user r (linked link)))
      found (inl e) = repo-Resolves (inr none) (load path) refl
      found (inr conv) = repo-Resolves (load (workspace_dir root config.user conv)) (load path) refl
