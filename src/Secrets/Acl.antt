-- ===== src/Secrets/Acl.antt =====
-- daemon-secrets/src/acl.rs: which daemon may read a secret, and which may list the keys.
pub mod Policy
use open_sesame.Prelude.{
  Bool, true, false, not, Option, none, some, List, if◌then◌else◌, is_empty, any,
}
use open_sesame.Prelude.Text.{Text, text_eq}
use open_sesame.Prelude.Maps.{Map, list_eq, get}

-- What the checks read of core-config/src/schema.rs and schema_secrets.rs.
pub record SecretsConfig : Type 0 where
  pub access : Map Text (List Text)

pub record ProfileConfig : Type 0 where
  pub secrets : SecretsConfig

pub record Config : Type 0 where
  pub profiles : Map Text ProfileConfig

-- `config.profiles.values().any(|p| !p.secrets.access.is_empty())`.
unfoldable pub any_acl_active : Config → Bool
any_acl_active config = any (λ entry. not (is_empty entry.1.secrets.access)) config.profiles

-- Both checks up to the list of the daemon's keys, on which they differ.
unfoldable pub check_keys : (List Text → Bool) → Config → Text → Option Text → Bool
unfolding any_acl_active
check_keys allowed config profile daemon_name = elim (get config.profiles profile) [
  | none ↦ not (any_acl_active config)
  | some profile_config ↦
      if is_empty profile_config.secrets.access then true else elim daemon_name [
        | none ↦ false
        | some name ↦ elim (get profile_config.secrets.access name) [
          | none ↦ true
          | some allowed_keys ↦ allowed allowed_keys
        ]
      ]
]

unfoldable pub check_secret_access : Config → Text → Option Text → Text → Bool
unfolding check_keys
check_secret_access config profile daemon_name key =
    check_keys (any (λ k. text_eq k key)) config profile daemon_name

unfoldable pub check_secret_list_access : Config → Text → Option Text → Bool
unfolding check_keys
check_secret_list_access config profile daemon_name =
    check_keys (λ allowed_keys. not (is_empty allowed_keys)) config profile daemon_name
