-- ===== src/Workspace/Convention.antt =====
-- sesame-workspace/src/convention.rs: from the URL of a repository to its folder, and back.
pub mod Safe
pub mod Return
use open_sesame.Prelude.{
  ℕ, ◌⊎◌, inl, inr, Bool, true, false, not, ◌&&◌, ◌||◌, Option, none, some, List, [], ◌∷◌, ◌++◌,
  ltb, leb, ◌==◌, if◌then◌else◌, is_empty, length,
}
use open_sesame.Prelude.Text.{Text, Unicode, codes, text_eq, starts_with, str_len, trim}
use open_sesame.Prelude.Split.{has_char, has_dots, split_once, splitn}

pub record WorkspaceConvention : Type 0 where
  pub server : Text
  pub org : Text
  pub repo : Option Text
  pub is_workspace_git : Bool

-- A path is its components; a component without a separator is joined behind them.
abbrev pub PathBuf : Type 0
PathBuf = List Text

pub data CloneTarget : Type 0 where
  regular workspace_git : PathBuf → CloneTarget

abbrev pub target_path : CloneTarget → PathBuf
target_path (regular p) = p
target_path (workspace_git p) = p

pub data Label : Type 0 where
  server_part org_part repo_part : Label

-- The errors, without the texts they show.
pub data WorkspaceError : Type 0 where
  null_bytes unrecognized_url few_https_parts missing_at missing_colon few_ssh_parts :
      WorkspaceError
  empty_component leading_dot path_traversal path_separator null_byte exceeds_255_bytes
        outer_whitespace :
      Label → WorkspaceError
  not_in_workspace : WorkspaceError

-- `str::strip_prefix`.
abbrev strip_prefix : Text → Text → Option Text
strip_prefix [] s = some s
strip_prefix (c ∷ p) [] = none
strip_prefix (c ∷ p) (d ∷ s) = let rest = strip_prefix p s in if c == d then rest else none

abbrev with_front : ℕ → Option Text → Option Text
with_front c none = none
with_front c (some s) = some (c ∷ s)

-- `str::strip_suffix`.
abbrev pub strip_suffix : Text → Text → Option Text
strip_suffix suffix [] = if is_empty suffix then some [] else none
strip_suffix suffix (c ∷ s) =
    let rest = strip_suffix suffix s in
    if text_eq (c ∷ s) suffix then some [] else with_front c rest

abbrev pub unwrap_or {ℓ} : {A : Type ℓ} → A → Option A → A
unwrap_or other none = other
unwrap_or other (some a) = a

abbrev pub or_value {ℓ} : {A : Type ℓ} → Option A → Option A → Option A
or_value other none = other
or_value other (some a) = some a

-- The server, the organisation and the repository as they stand in the URL.
abbrev pub Parts : Type 0
Parts = Text × Text × Text

abbrev https_parts : List Text → WorkspaceError ⊎ Parts
https_parts (server ∷ org ∷ repo ∷ more) = inr (server, org, repo)
https_parts _ = inl few_https_parts

unfoldable pub parse_https : Text → WorkspaceError ⊎ Parts
unfolding splitn
parse_https url = https_parts (
    splitn 4 b'/' (
      unwrap_or url
        (or_value (strip_prefix (codes "http://") url) (strip_prefix (codes "https://") url))))

abbrev ssh_parts : Text → List Text → WorkspaceError ⊎ Parts
ssh_parts server (org ∷ repo ∷ more) = inr (server, org, repo)
ssh_parts server _ = inl few_ssh_parts

abbrev ssh_after_at : Option (Text × Text) → WorkspaceError ⊎ Parts
ssh_after_at none = inl missing_colon
ssh_after_at (some (server, path)) = ssh_parts server (splitn 3 b'/' path)

abbrev ssh_at : Option (Text × Text) → WorkspaceError ⊎ Parts
ssh_at none = inl missing_at
ssh_at (some (user, after_at)) = ssh_after_at (split_once b':' after_at)

unfoldable pub parse_ssh : Text → WorkspaceError ⊎ Parts
unfolding splitn split_once
parse_ssh url = ssh_at (split_once b'@' url)

abbrev pub starts_with_dot : Text → Bool
starts_with_dot [] = false
starts_with_dot (c ∷ s) = c == b'.'

unfoldable pub validate_component : Label → Text → Option WorkspaceError
unfolding text_eq trim
validate_component label value =
    if is_empty value
    then some (empty_component label)
    else if starts_with_dot value
    then some (leading_dot label)
    else if has_dots value
    then some (path_traversal label)
    else if has_char b'/' value || has_char 92 value
    then some (path_separator label)
    else if has_char 0 value
    then some (null_byte label)
    else if ltb 255 (str_len value)
    then some (exceeds_255_bytes label)
    else if not (text_eq value (trim value))
    then some (outer_whitespace label)
    else none

abbrev pub first_error : Option WorkspaceError → Option WorkspaceError → Option WorkspaceError
first_error none later = later
first_error (some e) later = some e

abbrev pub workspace : Text
workspace = codes "workspace"

abbrev pub convention : Text → Text → Text → WorkspaceConvention
convention server org repo =
    if text_eq repo workspace
    then (record { server = server; org = org; repo = none; is_workspace_git = true })
    else (record { server = server; org = org; repo = some repo; is_workspace_git = false })

abbrev pub or_convention :
    Option WorkspaceError → WorkspaceConvention → WorkspaceError ⊎ WorkspaceConvention
or_convention none conv = inr conv
or_convention (some e) conv = inl e

-- The parts, with the server in lower case and the repository without its suffix, are looked at.
abbrev pub with_parts : Unicode → WorkspaceError ⊎ Parts → WorkspaceError ⊎ WorkspaceConvention
with_parts u (inl e) = inl e
with_parts u (inr (raw_server, raw_org, raw_repo)) =
    let lower = u.str_lowercase raw_server in
    let name = unwrap_or raw_repo (strip_suffix (codes ".git") raw_repo) in
    or_convention
      (first_error (validate_component server_part lower)
        (first_error (validate_component org_part raw_org) (validate_component repo_part name)))
      (convention lower raw_org name)

abbrev pub parse_trimmed : Text → WorkspaceError ⊎ Parts
parse_trimmed url =
    if starts_with url (codes "https://") || starts_with url (codes "http://")
    then parse_https url
    else if has_char b'@' url && has_char b':' url
    then parse_ssh url
    else inl unrecognized_url

unfoldable pub parse_url : Unicode → Text → WorkspaceError ⊎ WorkspaceConvention
unfolding starts_with parse_https parse_ssh validate_component text_eq trim
parse_url u url =
    let trimmed = trim url in
    if has_char 0 trimmed then inl null_bytes else with_parts u (parse_trimmed trimmed)

unfoldable pub canonical_path : PathBuf → Text → WorkspaceConvention → CloneTarget
canonical_path root user conv =
    let base = root ++ user ∷ conv.server ∷ conv.org ∷ [] in
    if conv.is_workspace_git
    then workspace_git base
    else regular (base ++ unwrap_or (codes "repo") conv.repo ∷ [])

abbrev pub on_target :
    PathBuf → Text → WorkspaceError ⊎ WorkspaceConvention → WorkspaceError ⊎ CloneTarget
on_target root user (inl e) = inl e
on_target root user (inr conv) = inr (canonical_path root user conv)

unfoldable pub canonical_path_from_url :
    Unicode → PathBuf → Text → Text → WorkspaceError ⊎ CloneTarget
unfolding parse_url canonical_path
canonical_path_from_url u root user url = on_target root user (parse_url u url)

-- What the file system tells: a path without symbolic links, if it is there, and whether it is a folder.
pub record FileSystem : Type 0 where
  pub canonicalize : PathBuf → Option PathBuf
  pub is_dir : PathBuf → Bool

-- `Path::strip_prefix`.
unfoldable pub strip_path : PathBuf → PathBuf → Option PathBuf
unfolding text_eq
strip_path [] p = some p
strip_path (c ∷ root) [] = none
strip_path (c ∷ root) (d ∷ p) = let rest = strip_path root p in if text_eq c d then rest else none

abbrev pub convention_of :
    FileSystem → PathBuf → Option PathBuf → WorkspaceError ⊎ WorkspaceConvention
convention_of fs p (some (user ∷ server ∷ org ∷ [])) = inr (record {
  server = server;
  org = org;
  repo = none;
  is_workspace_git = fs.is_dir (p ++ codes ".git" ∷ []);
})
convention_of fs p (some (user ∷ server ∷ org ∷ repo ∷ more)) =
    inr (record { server = server; org = org; repo = some repo; is_workspace_git = false })
convention_of fs p _ = inl not_in_workspace

unfoldable pub parse_path : FileSystem → PathBuf → PathBuf → WorkspaceError ⊎ WorkspaceConvention
unfolding strip_path
parse_path fs root p =
    convention_of fs p
      (strip_path (unwrap_or root (fs.canonicalize root)) (unwrap_or p (fs.canonicalize p)))

unfoldable pub is_inside_workspace_git : FileSystem → PathBuf → Bool
is_inside_workspace_git fs [] = false
is_inside_workspace_git fs (c ∷ p) = fs.is_dir (parent c p ++ codes ".git" ∷ [])
  where
    parent : Text → PathBuf → PathBuf
    parent c [] = []
    parent c (d ∷ p) = c ∷ parent d p
