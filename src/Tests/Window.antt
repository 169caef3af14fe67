-- ===== src/Tests/Window.antt =====
-- Two windows, a configuration and a disk for the tests of the window switcher.
use open_sesame.Prelude.{true, false, some, [], ◌∷◌}
use open_sesame.Prelude.Text.{Text, codes}
use open_sesame.Types.{Window, pos}
use open_sesame.Wm.Config.{WmConfig, WmKeyBinding}
use open_sesame.Wm.Mru.{Disk}
use open_sesame.Wm.Controller.Handle.{World}

abbrev pub window : Text → Text → Window
window id app_id = record {
  id = id;
  app_id = app_id;
  title = app_id;
  workspace_id = codes "ws-1";
  monitor_id = codes "mon-1";
  geometry = record { x = pos 0; y = pos 0; width = 800; height = 600 };
  is_focused = false;
  is_minimized = false;
  is_fullscreen = false;
  profile_id = codes "prof-1";
}

abbrev pub browser : Window
browser = window (codes "win-a") (codes "org.mozilla.firefox")

abbrev pub terminal : Window
terminal = window (codes "win-b") (codes "com.mitchellh.ghostty")

abbrev mail_binding : WmKeyBinding
mail_binding = record {
  apps = [];
  launch = some (codes "thunderbird");
  tags = codes "work:corp" ∷ [];
  launch_args = [];
}

abbrev pub config : WmConfig
config = record {
  overlay_delay_ms = 150;
  quick_switch_threshold_ms = 250;
  key_bindings = (codes "m", mail_binding) ∷ [];
  max_visible_windows = 20;
}

-- The browser has the focus, and the terminal had it before.
abbrev pub disk : Disk
disk = record {
  has_path = true;
  grants_shared = true;
  grants_exclusive = true;
  is_utf8 = true;
  file = some (codes "win-a\nwin-b");
}

abbrev pub world : World
world = record { windows = browser ∷ terminal ∷ []; config = config; now = 0; disk = disk }
