-- ===== src/Workspace/Convention/Safe.antt =====
-- What the parts of a URL that is accepted are like, and where its repository is cloned.
use mathlib.Core.List.{append_assoc}
use open_sesame.Prelude.{
  ◌≡◌, ◌≤◌, refl, subst, ◌⊎◌, inl, inr, Bool, true, false, Option, none, some, List, [], ◌∷◌, ◌++◌,
  if◌then◌else◌, is_empty, length, arith, All,
}
use open_sesame.Prelude.Text.{Text, Unicode, codes, text_eq, text_eq_iff, str_len, trim}
use open_sesame.Prelude.Split.{has_char, has_dots}
use open_sesame.Workspace.Convention.{
  WorkspaceConvention, WorkspaceError, Label, server_part, org_part, repo_part, PathBuf,
  CloneTarget, target_path, Parts, starts_with_dot, validate_component, null_bytes, regular,
  workspace_git, first_error, or_convention, convention, with_parts, parse_trimmed, parse_url,
  canonical_path, canonical_path_from_url, on_target, strip_suffix, unwrap_or, workspace,
}

-- A name that is one component of a path, and none that is hidden or leads elsewhere.
pub record IsComponent (name : Text) : Type 0 where
  pub not_empty : is_empty name ≡ false
  pub no_dot : starts_with_dot name ≡ false
  pub no_dots : has_dots name ≡ false
  pub no_slash : has_char b'/' name ≡ false
  pub no_backslash : has_char 92 name ≡ false
  pub no_null : has_char 0 name ≡ false
  pub short : str_len name ≤ 255
  pub trimmed : name ≡ trim name

validate_component-IsComponent :
    (label : Label) (name : Text) → validate_component label name ≡ none → IsComponent name
unfolding validate_component
validate_component-IsComponent label name h = record {
  not_empty = ground arith;
  no_dot = ground arith;
  no_dots = ground arith;
  no_slash = ground arith;
  no_backslash = ground arith;
  no_null = ground arith;
  short = ground arith;
  trimmed = (text_eq_iff name (trim name)).0 (ground arith);
}

abbrev pub is_none {ℓ} : {A : Type ℓ} → Option A → Bool
is_none none = true
is_none (some _) = false

abbrev IsRepo : Option Text → Type 0
IsRepo none = Unit
IsRepo (some name) = IsComponent name

-- Only the repository `workspace` has no name of its own.
pub record IsSafe (conv : WorkspaceConvention) : Type 0 where
  pub server : IsComponent conv.server
  pub org : IsComponent conv.org
  pub repo : IsRepo conv.repo
  pub git : conv.is_workspace_git ≡ is_none conv.repo

convention-IsSafe :
    (server org repo : Text)
    → IsComponent server
    → IsComponent org
    → IsComponent repo
    → IsSafe (convention server org repo)
convention-IsSafe server org repo s o r = by_name (text_eq repo workspace)
  where
    by_name :
        (b : Bool)
        → IsSafe (
            if b
            then (record { server = server; org = org; repo = none; is_workspace_git = true })
            else (record {
              server = server;
              org = org;
              repo = some repo;
              is_workspace_git = false;
            }))
    by_name true = record { server = s; org = o; repo = tt; git = refl }
    by_name false = record { server = s; org = o; repo = r; git = refl }

with_parts-IsSafe :
    (u : Unicode) (r : WorkspaceError ⊎ Parts) (conv : WorkspaceConvention)
    → with_parts u r ≡ inr conv
    → IsSafe conv
with_parts-IsSafe u (inl e) conv h = cc
with_parts-IsSafe u (inr (server, org, repo)) conv h =
    checked (validate_component server_part lower) (validate_component org_part org)
      (validate_component repo_part name) refl refl refl h
  where
    lower : Text
    lower = u.str_lowercase server

    name : Text
    name = unwrap_or repo (strip_suffix (codes ".git") repo)

    checked :
        (a b c : Option WorkspaceError)
        → validate_component server_part lower ≡ a
        → validate_component org_part org ≡ b
        → validate_component repo_part name ≡ c
        → or_convention (first_error a (first_error b c)) (convention lower org name) ≡ inr conv
        → IsSafe conv
    checked (some e) b c ea eb ec h = cc
    checked none (some e) c ea eb ec h = cc
    checked none none (some e) ea eb ec h = cc
    checked none none none ea eb ec h = subst IsSafe (inr-injective h) (
        convention-IsSafe lower org name (validate_component-IsComponent server_part lower ea)
          (validate_component-IsComponent org_part org eb)
          (validate_component-IsComponent repo_part name ec))
      where
        inr-injective :
            {c d : WorkspaceConvention}
            → ◌≡◌ {A = WorkspaceError ⊎ WorkspaceConvention} (inr c) (inr d)
            → c ≡ d
        inr-injective e = cc

pub parse_url-IsSafe :
    (u : Unicode) (url : Text) (conv : WorkspaceConvention)
    → parse_url u url ≡ inr conv
    → IsSafe conv
unfolding parse_url
parse_url-IsSafe u url conv h = checked (has_char 0 (trim url)) h
  where
    checked :
        (b : Bool)
        → (if b then inl null_bytes else with_parts u (parse_trimmed (trim url))) ≡ inr conv
        → IsSafe conv
    checked true h = cc
    checked false h = with_parts-IsSafe u (parse_trimmed (trim url)) conv h

-- The folder is below the user's, two or three names deeper.
abbrev pub IsBelow : PathBuf → Text → PathBuf → Type 0
IsBelow root user p =
    (names : List Text) × (p ≡ root ++ user ∷ names)
    × All IsComponent names
    × ((length names ≡ 2) ⊎ (length names ≡ 3))

canonical_path-IsBelow :
    (root : PathBuf) (user : Text) (conv : WorkspaceConvention)
    → IsSafe conv
    → IsBelow root user (target_path (canonical_path root user conv))
unfolding canonical_path
canonical_path-IsBelow root user conv v = placed conv.is_workspace_git conv.repo v.git v.repo
  where
    base : PathBuf
    base = root ++ user ∷ conv.server ∷ conv.org ∷ []

    placed :
        (b : Bool) (o : Option Text)
        → b ≡ is_none o
        → IsRepo o
        → IsBelow root user (
            target_path
              (if b then workspace_git base else regular (base ++ unwrap_or (codes "repo") o ∷ [])))
    placed true o e r = (conv.server ∷ conv.org ∷ [], refl, (v.server, (v.org, tt)), inl refl)
    placed false none e r = cc
    placed false (some name) e r = (
      conv.server ∷ conv.org ∷ name ∷ [],
      append_assoc root (user ∷ conv.server ∷ conv.org ∷ []) (name ∷ []),
      (v.server, (v.org, (r, tt))),
      inr refl,
    )

-- Whatever the URL is, a repository is cloned two or three folders below the user's, and each of these
-- has a name that is no path: not empty, without separators, null or two dots in a row, not hidden, at
-- most 255 bytes long and without outer white space.
pub canonical_path_from_url-IsBelow :
    (u : Unicode) (root : PathBuf) (user url : Text) (target : CloneTarget)
    → canonical_path_from_url u root user url ≡ inr target
    → IsBelow root user (target_path target)
unfolding canonical_path_from_url
canonical_path_from_url-IsBelow u root user url target h = found (parse_url u url) refl h
  where
    found :
        (r : WorkspaceError ⊎ WorkspaceConvention)
        → parse_url u url ≡ r
        → on_target root user r ≡ inr target
        → IsBelow root user (target_path target)
    found (inl e) same h = cc
    found (inr conv) same h =
        subst (λ t. IsBelow root user (target_path t)) (inr-injective h)
          (canonical_path-IsBelow root user conv (parse_url-IsSafe u url conv same))
      where
        inr-injective :
            {c d : CloneTarget} → ◌≡◌ {A = WorkspaceError ⊎ CloneTarget} (inr c) (inr d) → c ≡ d
        inr-injective e = cc
