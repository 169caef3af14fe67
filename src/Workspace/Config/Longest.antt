-- ===== src/Workspace/Config/Longest.antt =====
-- Which link decides on the profile of a folder.
use mathlib.Core.Path.{ap₂}
use mathlib.Core.List.{Memᴰ}
use mathlib.Core.List.Memᴰ.{not-nil}
use mathlib.Core.Option.{some-injective, none-ne-some}
use open_sesame.Prelude.{
  ℕ, ◌≡◌, ◌≤◌, ◌<◌, refl, sym, ap, ◌∙◌, subst, ◌⊎◌, inl, inr, true, false, Bool-cases, Option, none,
  some, [], ◌∷◌, ◌++◌, ltb, arith,
}
use open_sesame.Prelude.Text.{Text, text_eq, text_eq_iff, starts_with, str_len, utf8_len}
use open_sesame.Prelude.Maps.{Map, list_eq}
use open_sesame.Workspace.Convention.{PathBuf}
use open_sesame.Workspace.Config.{
  WorkspaceConfig, display, is_prefix, better, best_match, profile_of, resolve_workspace_profile,
}

-- The better of two is one of them, and as long as either.
abbrev Chooses : Text × Text → Option (Text × Text) → Text × Text → Type 0
Chooses link before c =
    ((before ≡ some c) ⊎ (link ≡ c))
    × (str_len link.0 ≤ str_len c.0)
    × ((other : Text × Text) → before ≡ some other → str_len other.0 ≤ str_len c.0)

better-Chooses :
    (link : Text × Text) (before : Option (Text × Text))
    → (c : Text × Text) × (better link before ≡ some c) × Chooses link before c
better-Chooses link none = (link, refl, (inr refl, omega arith, λ other e. cc))
better-Chooses link (some best) = elim (Bool-cases (ltb (str_len best.0) (str_len link.0))) [
  | inl longer ↦
      (link, rw longer refl, (inr refl, omega arith, λ other e. bound other link e (ground arith)))
  | inr shorter ↦
      (best, rw shorter refl, (inl refl, ground arith, λ other e. bound other best e (omega arith)))
]
  where
    bound :
        (other c : Text × Text)
        → some best ≡ some other
        → str_len best.0 ≤ str_len c.0
        → str_len other.0 ≤ str_len c.0
    bound other c e h = subst (λ b. str_len b.0 ≤ str_len c.0) (some-injective _ _ e) h

module _ (path : Text) where
  -- The link is among those that lead to the folder, and none of these is longer.
  abbrev Longest : Map Text Text → Text × Text → Type 0
  Longest links best =
      (link : Text × Text)
      → Memᴰ link links
      → is_prefix path link.0 ≡ true
      → str_len link.0 ≤ str_len best.0

  abbrev IsBest : Map Text Text → Option (Text × Text) → Option (Text × Text) → Type 0
  IsBest links before none =
      (before ≡ none) × ((link : Text × Text) → Memᴰ link links → is_prefix path link.0 ≡ false)
  IsBest links before (some best) =
      ((before ≡ some best) ⊎ (Memᴰ best links × (is_prefix path best.0 ≡ true)))
      × Longest links best
      × ((other : Text × Text) → before ≡ some other → str_len other.0 ≤ str_len best.0)

  better-IsBest :
      (link : Text × Text) (links : Map Text Text) (before r : Option (Text × Text))
      → is_prefix path link.0 ≡ true
      → IsBest links (better link before) r
      → IsBest (link ∷ links) before r
  better-IsBest link links before none h (b, no_link) =
      let (c, made, chosen) = better-Chooses link before in absurd (none-ne-some c (sym b ∙ made))
  better-IsBest link links before (some best) h (found, longest, later) =
      let (c, made, (chosen, link_short, before_short)) = better-Chooses link before in
      let short : str_len c.0 ≤ str_len best.0 = later c made in
      (
        elim found [
          | inl e ↦ first c (some-injective _ _ (sym made ∙ e)) chosen
          | inr (m, e) ↦ inr (Memᴰ.tail m, e)
        ],
        longer (omega (arith, link_short, short)),
        λ other e. omega (arith, before_short other e, short),
      )
    where
      first :
          (c : Text × Text)
          → c ≡ best
          → (before ≡ some c) ⊎ (link ≡ c)
          → (before ≡ some best) ⊎ (Memᴰ best (link ∷ links) × (is_prefix path best.0 ≡ true))
      first c same (inl e) = inl (e ∙ ap some same)
      first c same (inr e) =
          let e' : link ≡ best = e ∙ same in
          inr (Memᴰ.head (sym e'), subst (λ l. is_prefix path l.0 ≡ true) e' h)

      longer : str_len link.0 ≤ str_len best.0 → Longest (link ∷ links) best
      longer l other (Memᴰ.head e) p = subst (λ o. str_len o.0 ≤ str_len best.0) (sym e) l
      longer l other (Memᴰ.tail m) p = longest other m p

  skip-IsBest :
      (link : Text × Text) (links : Map Text Text) (before r : Option (Text × Text))
      → is_prefix path link.0 ≡ false
      → IsBest links before r
      → IsBest (link ∷ links) before r
  skip-IsBest link links before none h (b, no_link) = (b, none_matches)
    where
      none_matches : (l : Text × Text) → Memᴰ l (link ∷ links) → is_prefix path l.0 ≡ false
      none_matches l (Memᴰ.head e) = ap (λ l. is_prefix path l.0) e ∙ h
      none_matches l (Memᴰ.tail m) = no_link l m
  skip-IsBest link links before (some best) h (found, longest, later) = (still found, longer, later)
    where
      still :
          (before ≡ some best) ⊎ (Memᴰ best links × (is_prefix path best.0 ≡ true))
          → (before ≡ some best) ⊎ (Memᴰ best (link ∷ links) × (is_prefix path best.0 ≡ true))
      still (inl e) = inl e
      still (inr (m, e)) = inr (Memᴰ.tail m, e)

      longer : Longest (link ∷ links) best
      longer l (Memᴰ.head e) p = absurd (clash (ap (λ l. is_prefix path l.0) e ∙ h) p)
        where
          clash : is_prefix path l.0 ≡ false → is_prefix path l.0 ≡ true → ⊥
          clash a b = cc
      longer l (Memᴰ.tail m) p = longest l m p

  best_match-IsBest :
      (links : Map Text Text) (before : Option (Text × Text))
      → IsBest links before (best_match path links before)
  best_match-IsBest [] none = (refl, λ l m. absurd (not-nil m))
  best_match-IsBest [] (some best) =
      (inl refl, λ l m p. absurd (not-nil m), λ other e. same other e)
    where
      same : (other : Text × Text) → some best ≡ some other → str_len other.0 ≤ str_len best.0
      same other e = subst (λ o. str_len o.0 ≤ str_len best.0) (some-injective _ _ e) (omega arith)
  best_match-IsBest (link ∷ links) before = elim (Bool-cases (is_prefix path link.0)) [
    | inl matches ↦ rw matches (
        better-IsBest link links before (best_match path links (better link before)) matches
          (best_match-IsBest links (better link before)))
    | inr other ↦ rw other (
        skip-IsBest link links before (best_match path links before) other
          (best_match-IsBest links before))
  ]

starts_with-append : (s a b : Text) → starts_with s (a ++ b) ≡ true → starts_with s a ≡ true
unfolding starts_with
starts_with-append s [] b h = refl
starts_with-append [] (c ∷ a) b h = cc
starts_with-append (d ∷ s) (c ∷ a) b h = ground (arith, starts_with-append s a b)

starts_with-itself : (s : Text) → starts_with s s ≡ true
unfolding starts_with
starts_with-itself [] = refl
starts_with-itself (c ∷ s) = ground (arith, starts_with-itself s)

is_prefix-starts_with :
    (path link : Text) → is_prefix path link ≡ true → starts_with path link ≡ true
is_prefix-starts_with path link h =
    ground (arith, (text_eq_iff path link).0, starts_with-append path link (b'/' ∷ []), same)
  where
    same : text_eq path link ≡ true → starts_with path link ≡ true
    same e =
        subst (λ t. starts_with path t ≡ true) ((text_eq_iff path link).0 e)
          (starts_with-itself path)

nonempty : (c : ℕ) (s : Text) → str_len (c ∷ s) ≡ 0 → ⊥
nonempty c s e = ground arith

-- Two beginnings of a text that are as long are the same.
prefix_unique :
    (s a b : Text) → starts_with s a ≡ true → starts_with s b ≡ true → str_len a ≡ str_len b → a ≡ b
unfolding starts_with
prefix_unique s [] [] ha hb e = refl
prefix_unique s [] (c ∷ b) ha hb e = absurd (nonempty c b (sym e))
prefix_unique s (c ∷ a) [] ha hb e = absurd (nonempty c a e)
prefix_unique [] (c ∷ a) (d ∷ b) ha hb e = cc
prefix_unique (x ∷ s) (c ∷ a) (d ∷ b) ha hb e =
    let first : x ≡ c = ground arith in
    let first' : x ≡ d = ground arith in
    let same : c ≡ d = sym first ∙ first' in
    ap₂ ◌∷◌ same
      (prefix_unique s a b (ground arith) (ground arith) (omega (arith, ap utf8_len same, e)))

-- The link that decides on the profile, if there is one.
abbrev Decides : Text → Map Text Text → Option Text → Type 0
Decides path links none = (link : Text × Text) → Memᴰ link links → is_prefix path link.0 ≡ false
Decides path links (some profile) =
    (best : Text × Text) × Memᴰ best links
    × (best.1 ≡ profile)
    × (is_prefix path best.0 ≡ true)
    × ((link : Text × Text)
        → Memᴰ link links
        → is_prefix path link.0 ≡ true
        → (str_len link.0 < str_len best.0) ⊎ (link.0 ≡ best.0))

IsBest-Decides :
    (path : Text) (links : Map Text Text) (r : Option (Text × Text))
    → IsBest path links none r
    → Decides path links (profile_of r)
IsBest-Decides path links none (e, no_link) = no_link
IsBest-Decides path links (some best) (inl e, longest, later) = absurd (none-ne-some best e)
IsBest-Decides path links (some best) (inr (m, matches), longest, later) =
    (best, m, refl, matches, λ link there p. compared link there p (longest link there p))
  where
    compared :
        (link : Text × Text)
        → Memᴰ link links
        → is_prefix path link.0 ≡ true
        → str_len link.0 ≤ str_len best.0
        → (str_len link.0 < str_len best.0) ⊎ (link.0 ≡ best.0)
    compared link there p short = elim (Bool-cases (ltb (str_len link.0) (str_len best.0))) [
      | inl shorter ↦ inl (ground arith)
      | inr as_long ↦ inr (
          prefix_unique path link.0 best.0 (is_prefix-starts_with path link.0 p)
            (is_prefix-starts_with path best.0 matches) (ground arith))
    ]

-- A folder has the profile of the link that is the folder or above it, and of these the longest; each
-- other one that leads to the folder is shorter. It has none if no link leads to it.
resolve_workspace_profile-Decides :
    (config : WorkspaceConfig) (path : PathBuf)
    → Decides (display path) config.links (resolve_workspace_profile config path)
unfolding resolve_workspace_profile
resolve_workspace_profile-Decides config path =
    IsBest-Decides (display path) config.links (best_match (display path) config.links none)
      (best_match-IsBest (display path) config.links none)
