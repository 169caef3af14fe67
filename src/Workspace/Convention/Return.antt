-- ===== src/Workspace/Convention/Return.antt =====
-- From a folder back to the URL's parts.
use mathlib.Core.Path.{ap₂}
use mathlib.Core.List.{append_assoc}
use open_sesame.Prelude.{
  ◌≡◌, refl, sym, ap, ◌∙◌, subst, ◌⊎◌, inl, inr, Bool, true, false, Option, none, some, [], ◌∷◌,
  ◌++◌, if◌then◌else◌,
}
use open_sesame.Prelude.Text.{Text, Unicode, codes, text_eq_refl}
use open_sesame.Workspace.Convention.{
  WorkspaceConvention, WorkspaceError, PathBuf, CloneTarget, regular, workspace_git, target_path,
  FileSystem, strip_path, convention_of, parse_path, parse_url, canonical_path,
  canonical_path_from_url, on_target, unwrap_or,
}
use open_sesame.Workspace.Convention.Safe.{IsSafe, is_none, parse_url-IsSafe}

strip_path-append : (root p : PathBuf) → strip_path root (root ++ p) ≡ some p
unfolding strip_path
strip_path-append [] p = refl
strip_path-append (c ∷ root) p = rw (text_eq_refl c) (strip_path-append root p)

module _ (fs : FileSystem) (root p names : PathBuf) (below : p ≡ root ++ names) where
  parse_path-below :
      fs.canonicalize root ≡ some root
      → fs.canonicalize p ≡ some p
      → parse_path fs root p ≡ convention_of fs p (some names)
  unfolding parse_path
  parse_path-below here there =
      ap (λ o. convention_of fs p (strip_path (unwrap_or root o) (unwrap_or p (fs.canonicalize p))))
        here
      ∙ (ap (λ o. convention_of fs p (strip_path root (unwrap_or p o))) there
          ∙ (ap (λ q. convention_of fs p (strip_path root q)) below
              ∙ ap (convention_of fs p) (strip_path-append root names)))

-- A folder that is there, without symbolic links on the way, and a repository.
pub record IsCloned (fs : FileSystem) (root : PathBuf) (p : PathBuf) : Type 0 where
  pub root_is_real : fs.canonicalize root ≡ some root
  pub is_real : fs.canonicalize p ≡ some p
  pub is_repository : fs.is_dir (p ++ codes ".git" ∷ []) ≡ true

-- The parts of a convention, put together.
same_parts :
    (conv : WorkspaceConvention) (o : Option Text) (b : Bool)
    → conv.repo ≡ o
    → conv.is_workspace_git ≡ b
    → ◌≡◌ {A = WorkspaceError ⊎ WorkspaceConvention}
        (inr (record { server = conv.server; org = conv.org; repo = o; is_workspace_git = b }))
        (inr conv)
same_parts conv o b eo eb = sym (
    ap₂
      (λ o b. inr (record { server = conv.server; org = conv.org; repo = o; is_workspace_git = b }))
      eo eb)

parse_path-canonical_path :
    (fs : FileSystem) (root : PathBuf) (user : Text) (conv : WorkspaceConvention)
    → IsSafe conv
    → IsCloned fs root (target_path (canonical_path root user conv))
    → parse_path fs root (target_path (canonical_path root user conv)) ≡ inr conv
unfolding canonical_path
parse_path-canonical_path fs root user conv v cloned =
    placed conv.is_workspace_git conv.repo refl refl v.git cloned
  where
    base : PathBuf
    base = root ++ user ∷ conv.server ∷ conv.org ∷ []

    target : Bool → Option Text → PathBuf
    target b o =
        target_path
          (if b then workspace_git base else regular (base ++ unwrap_or (codes "repo") o ∷ []))

    placed :
        (b : Bool) (o : Option Text)
        → conv.is_workspace_git ≡ b
        → conv.repo ≡ o
        → b ≡ is_none o
        → IsCloned fs root (target b o)
        → parse_path fs root (target b o) ≡ inr conv
    placed true none eb eo e c =
        parse_path-below fs root base (user ∷ conv.server ∷ conv.org ∷ []) refl c.root_is_real
          c.is_real
        ∙ same_parts conv none (fs.is_dir (base ++ codes ".git" ∷ [])) eo (eb ∙ sym c.is_repository)
    placed true (some name) eb eo e c = cc
    placed false none eb eo e c = cc
    placed false (some name) eb eo e c =
        parse_path-below fs root (base ++ name ∷ []) (user ∷ conv.server ∷ conv.org ∷ name ∷ [])
          (append_assoc root (user ∷ conv.server ∷ conv.org ∷ []) (name ∷ [])) c.root_is_real
          c.is_real
        ∙ same_parts conv (some name) false eo eb

-- The folder that a URL is cloned to is read back as what the URL was read as, once the repository is
-- there and no link leads to another place.
pub parse_path-canonical_path_from_url :
    (u : Unicode) (fs : FileSystem) (root : PathBuf) (user url : Text) (target : CloneTarget)
    → canonical_path_from_url u root user url ≡ inr target
    → IsCloned fs root (target_path target)
    → parse_path fs root (target_path target) ≡ parse_url u url
unfolding canonical_path_from_url
parse_path-canonical_path_from_url u fs root user url target h cloned =
    found (parse_url u url) refl h
  where
    found :
        (r : WorkspaceError ⊎ WorkspaceConvention)
        → parse_url u url ≡ r
        → on_target root user r ≡ inr target
        → parse_path fs root (target_path target) ≡ r
    found (inl e) same h = cc
    found (inr conv) same h =
        subst
          (λ t. IsCloned fs root (target_path t) → parse_path fs root (target_path t) ≡ inr conv)
          (inr-injective h)
          (parse_path-canonical_path fs root user conv (parse_url-IsSafe u url conv same)) cloned
      where
        inr-injective :
            {c d : CloneTarget} → ◌≡◌ {A = WorkspaceError ⊎ CloneTarget} (inr c) (inr d) → c ≡ d
        inr-injective e = cc
