-- ===== src/Secrets/Acl/Policy.antt =====
-- The policy that the two checks implement.
use open_sesame.Prelude.{
  ◌≡◌, refl, sym, ◌∙◌, ◌↔◌, ◌⊎◌, inl, inr, Bool, true, false, not, Bool-cases, Option, Option-cases,
  none, some, List, [], ◌∷◌, is_empty, any, All,
}
use open_sesame.Prelude.Text.{Text, text_eq, text_eq_iff}
use open_sesame.Prelude.Maps.{list_eq, get}
use open_sesame.Secrets.Acl.{
  ProfileConfig, Config, any_acl_active, check_keys, check_secret_access, check_secret_list_access,
}

-- Membership, as the tests decide it.
abbrev pub Has : Text → List Text → Type 0
Has key [] = ⊥
Has key (k ∷ keys) = (k ≡ key) ⊎ Has key keys

-- Nobody has a policy for secrets.
abbrev IsOpen : Config → Type 0
IsOpen config = All (λ entry. entry.1.secrets.access ≡ []) config.profiles

-- What a policy for a profile grants to a sender on the list of keys that stands for it.
abbrev Listed : (List Text → Type 0) → Option (List Text) → Type 0
Listed P none = Unit
Listed P (some keys) = P keys

abbrev Registered : (List Text → Type 0) → ProfileConfig → Option Text → Type 0
Registered P p none = ⊥
Registered P p (some name) = Listed P (get p.secrets.access name)

abbrev Granted : (List Text → Type 0) → Config → Option ProfileConfig → Option Text → Type 0
Granted P config none sender = IsOpen config
Granted P config (some p) sender = (p.secrets.access ≡ []) ⊎ Registered P p sender

-- An unknown profile grants if no profile has a policy; a known one if it has no policy itself, or
-- to a sender with a name that is not in the policy, or whose keys fulfil `P`.
abbrev pub Grants : (List Text → Type 0) → Config → Text → Option Text → Type 0
Grants P config profile sender = Granted P config (get config.profiles profile) sender

is_empty-nil : {A : Type 0} (xs : List A) → is_empty xs ≡ true → xs ≡ []
is_empty-nil [] h = refl
is_empty-nil (x ∷ xs) h = cc

any-Has : (key : Text) (keys : List Text) → (any (λ k. text_eq k key) keys ≡ true) ↔ Has key keys
any-Has key [] = (λ h. cc, λ h. absurd h)
any-Has key (k ∷ keys) = elim (Bool-cases (text_eq k key)) [
  | inl same ↦ rw same (λ h. inl ((text_eq_iff k key).0 same), λ h. refl)
  | inr other ↦ rw other (
    λ h. inr ((any-Has key keys).0 h),
    λ h. elim h [
      | inl same ↦ absurd (false-ne-true (sym other ∙ (text_eq_iff k key).1 same))
      | inr there ↦ (any-Has key keys).1 there
    ],
  )
]
  where
    false-ne-true : false ≡ true → ⊥
    false-ne-true d = cc

is_empty_iff : {A : Type 0} (xs : List A) → (is_empty xs ≡ true) ↔ (xs ≡ [])
is_empty_iff [] = (λ h. refl, λ h. refl)
is_empty_iff (x ∷ xs) = (λ h. cc, λ h. cc)

any_acl_active-IsOpen : (config : Config) → (not (any_acl_active config) ≡ true) ↔ IsOpen config
unfolding any_acl_active
any_acl_active-IsOpen config = entries config.profiles
  where
    entries :
        (ps : List (Text × ProfileConfig))
        → (not (any (λ entry. not (is_empty entry.1.secrets.access)) ps) ≡ true)
          ↔ All (λ entry. entry.1.secrets.access ≡ []) ps
    entries [] = (λ h. tt, λ h. refl)
    entries ((name, p) ∷ ps) = elim (Bool-cases (is_empty p.secrets.access)) [
      | inl empty ↦ rw empty (
        λ h. ((is_empty_iff p.secrets.access).0 empty, (entries ps).0 h),
        λ h. (entries ps).1 h.1,
      )
      | inr policy ↦ rw policy (
        λ h. cc,
        λ h. absurd (false-ne-true (sym policy ∙ (is_empty_iff p.secrets.access).1 h.0)),
      )
    ]
      where
        false-ne-true : false ≡ true → ⊥
        false-ne-true d = cc

not_open : (p : ProfileConfig) → is_empty p.secrets.access ≡ false → p.secrets.access ≡ [] → ⊥
not_open p policy h = false-ne-true (sym policy ∙ (is_empty_iff p.secrets.access).1 h)
  where
    false-ne-true : false ≡ true → ⊥
    false-ne-true d = cc

module _ (allowed : List Text → Bool) (P : List Text → Type 0)
    (decides : (keys : List Text) → (allowed keys ≡ true) ↔ P keys) (config : Config)
    (profile : Text) where
  known :
      (p : ProfileConfig) (sender : Option Text)
      → is_empty p.secrets.access ≡ false
      → (elim sender as (λ s. Bool) [
        | none ↦ false
        | some name ↦ elim (get p.secrets.access name) [ none ↦ true | some keys ↦ allowed keys ]
      ]
          ≡ true)
        ↔ ((p.secrets.access ≡ []) ⊎ Registered P p sender)
  known p none policy = (
    λ h. cc,
    λ h. elim h [
      | inl open_access ↦ absurd (not_open p policy open_access)
      | inr none_left ↦ absurd none_left
    ],
  )
  known p (some name) policy = elim (Option-cases (get p.secrets.access name)) [
    | inl absent ↦ rw absent (λ h. inr tt, λ h. refl)
    | inr (keys, there) ↦ rw there (
      λ h. inr ((decides keys).0 h),
      λ h. elim h [
        | inl open_access ↦ absurd (not_open p policy open_access)
        | inr q ↦ (decides keys).1 q
      ],
    )
  ]

  check_keys-Grants :
      (sender : Option Text)
      → (check_keys allowed config profile sender ≡ true) ↔ Grants P config profile sender
  unfolding check_keys
  check_keys-Grants sender = elim (Option-cases (get config.profiles profile)) [
    | inl unknown ↦ rw (unknown, check_keys) (any_acl_active-IsOpen config)
    | inr (p, there) ↦ elim (Bool-cases (is_empty p.secrets.access)) [
      | inl empty ↦
          rw (there, check_keys, empty)
            (λ h. inl ((is_empty_iff p.secrets.access).0 empty), λ h. refl)
      | inr policy ↦ rw (there, check_keys, policy) (known p sender policy)
    ]
  ]

-- A secret may be read exactly when the policy grants its key: an unknown profile grants if no
-- profile has a policy; a known one if it has no policy itself, or to a sender with a name that is
-- not in the policy or has the key in its list.
pub check_secret_access_iff :
    (config : Config) (profile : Text) (sender : Option Text) (key : Text)
    → (check_secret_access config profile sender key ≡ true)
      ↔ Grants (Has key) config profile sender
unfolding check_secret_access
check_secret_access_iff config profile sender key =
    check_keys-Grants (any (λ k. text_eq k key)) (Has key) (any-Has key) config profile sender

IsFilled : List Text → Type 0
IsFilled keys = (key : Text) × Has key keys

not_empty-IsFilled : (keys : List Text) → (not (is_empty keys) ≡ true) ↔ IsFilled keys
unfolding IsFilled
not_empty-IsFilled [] = (λ h. cc, λ h. absurd h.1)
not_empty-IsFilled (k ∷ keys) = (λ h. (k, inl refl), λ h. refl)

Grants-IsFilled :
    (config : Config) (profile : Text) (sender : Option Text)
    → Grants IsFilled config profile sender
      ↔ ((key : Text) × Grants (Has key) config profile sender)
unfolding IsFilled
Grants-IsFilled config profile sender = granted (get config.profiles profile) sender
  where
    listed :
        (p : ProfileConfig) (o : Option (List Text))
        → ((p.secrets.access ≡ []) ⊎ Listed IsFilled o)
          ↔ ((key : Text) × ((p.secrets.access ≡ []) ⊎ Listed (Has key) o))
    listed p none = (λ h. ([], inr tt), λ h. inr tt)
    listed p (some keys) = (
      λ h. elim h [ inl e ↦ ([], inl e) | inr f ↦ (f.0, inr f.1) ],
      λ h. elim h.1 [ inl e ↦ inl e | inr f ↦ inr (h.0, f) ],
    )

    granted :
        (o : Option ProfileConfig) (s : Option Text)
        → Granted IsFilled config o s ↔ ((key : Text) × Granted (Has key) config o s)
    granted none s = (λ h. ([], h), λ h. h.1)
    granted (some p) none = (λ h. ([], h), λ h. h.1)
    granted (some p) (some name) = listed p (get p.secrets.access name)

-- The keys of a profile may be listed exactly when at least one secret of some name may be read.
check_secret_list_access_iff :
    (config : Config) (profile : Text) (sender : Option Text)
    → (check_secret_list_access config profile sender ≡ true)
      ↔ ((key : Text) × (check_secret_access config profile sender key ≡ true))
unfolding check_secret_list_access
check_secret_list_access_iff config profile sender = (
  λ h.
      let g = (Grants-IsFilled config profile sender).0 (lists.0 h) in
      (g.0, (check_secret_access_iff config profile sender g.0).1 g.1),
  λ h. lists.1 (
      (Grants-IsFilled config profile sender).1
        (h.0, (check_secret_access_iff config profile sender h.0).0 h.1)),
)
  where
    lists :
        (check_secret_list_access config profile sender ≡ true)
        ↔ Grants IsFilled config profile sender
    lists =
        check_keys-Grants (λ keys. not (is_empty keys)) IsFilled not_empty-IsFilled config profile
          sender
