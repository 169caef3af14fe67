-- ===== src/Wm/Config.antt =====
-- core-config/src/schema_wm.rs: the settings that the controller reads.
use open_sesame.Prelude.{ℕ, Option, List}
use open_sesame.Prelude.Text.{Text}

pub record WmKeyBinding : Type 0 where
  pub apps : List Text
  pub launch : Option Text
  pub tags : List Text
  pub launch_args : List Text

-- `BTreeMap<String, WmKeyBinding>`: its entries in key order.
abbrev pub KeyBindings : Type 0
KeyBindings = List (Text × WmKeyBinding)

-- The colours, sizes and flags that only the renderer reads are left out.
pub record WmConfig : Type 0 where
  pub overlay_delay_ms : ℕ
  pub quick_switch_threshold_ms : ℕ
  pub key_bindings : KeyBindings
  pub max_visible_windows : ℕ
