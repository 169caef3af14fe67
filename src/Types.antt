-- ===== src/Types.antt =====
-- core-types/src: the shared data of windows, security levels and launch denials.
pub mod ProfileName
pub mod Oci
use open_sesame.Prelude.{ℕ, Bool, List}
use open_sesame.Prelude.Text.{Text}

-- core-types/src/security.rs
pub data SecurityLevel : Type 0 where
  open_level internal profile_scoped secrets_only : SecurityLevel

pub data ℤ : Type 0 where
  pos : ℕ → ℤ
  negsuc : ℕ → ℤ

-- core-types/src/window.rs
pub record Geometry : Type 0 where
  pub x : ℤ
  pub y : ℤ
  pub width : ℕ
  pub height : ℕ

-- An identifier is its `Display` text, by which the program compares it.
pub record Window : Type 0 where
  pub id : Text
  pub app_id : Text
  pub title : Text
  pub workspace_id : Text
  pub monitor_id : Text
  pub geometry : Geometry
  pub is_focused : Bool
  pub is_minimized : Bool
  pub is_fullscreen : Bool
  pub profile_id : Text

-- core-types/src/denial.rs
pub data LaunchDenial : Type 0 where
  vaults_locked : List Text → LaunchDenial
  secret_not_found : ℕ → LaunchDenial
  rate_limited : LaunchDenial
  profile_not_found : Text → LaunchDenial
  launch_profile_not_found : Text → Text → LaunchDenial
  entry_not_found : LaunchDenial
  spawn_failed : Text → LaunchDenial
