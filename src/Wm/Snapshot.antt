-- ===== src/Wm/Snapshot.antt =====
-- daemon-wm/src/controller.rs, `Snapshot`: what is computed once when the overlay is activated.
pub mod Shape
pub mod Origin
use open_sesame.Prelude.{
  ℕ, ◌-◌, Bool, false, not, Option, none, some, List, ◌++◌, map, ltb, ◌&&◌, ◌==◌, if◌then◌else◌,
  is_empty, length, take, drop, remove_at, any, position_from,
}
use open_sesame.Prelude.Text.{Text, Unicode, text_eq}
use open_sesame.Types.{Window}
use open_sesame.Wm.Config.{WmConfig, KeyBindings}
use open_sesame.Wm.Hints.{assign_app_hints}
use open_sesame.Wm.Mru.{Disk, current, load, prune, reorder}

-- daemon-wm/src/surface/wayland/mod.rs
pub record WindowInfo : Type 0 where
  pub app_id : Text
  pub title : Text

pub record Snapshot : Type 0 where
  pub windows : List Window
  pub hints : List Text
  pub overlay_windows : List WindowInfo
  pub origin_index : Option ℕ
  pub key_bindings : KeyBindings

unfoldable pub is_live : List Window → Text → Bool
is_live windows id = any (λ w. text_eq w.id id) windows

-- `let origin = win_list.remove(pos); win_list.push(origin)`.
abbrev move_to_end : List Window → Option ℕ → List Window × Option ℕ
move_to_end windows none = (windows, none)
move_to_end windows (some pos) =
    let moved = remove_at pos windows ++ take 1 (drop pos windows) in
    (moved, some (length moved - 1))

-- The window that the stack has on top goes to the end of the list.
unfoldable pub rotate_origin : List Window → Option Text → List Window × Option ℕ
rotate_origin windows none = (windows, none)
rotate_origin windows (some id) =
    move_to_end windows (position_from 0 (λ w. text_eq w.id id) windows)

abbrev overlay_info : Window → WindowInfo
overlay_info w = record { app_id = w.app_id; title = w.title }

module _ (u : Unicode) where
  unfoldable pub snapshot_of : List Window × Option ℕ → KeyBindings → Snapshot
  snapshot_of (windows, origin) bindings = record {
    windows = windows;
    hints = map (λ h. h.0) (assign_app_hints u (map (λ w. w.app_id) windows) bindings);
    overlay_windows = map overlay_info windows;
    origin_index = origin;
    key_bindings = bindings;
  }

  -- The snapshot, and the disk after the dead entries of the stack have been dropped.
  unfoldable pub build : List Window → WmConfig → Disk → Snapshot × Disk
  unfolding snapshot_of rotate_origin
  build windows config disk =
      let pruned = prune (is_live windows) disk in
      let state = load pruned in
      let shown = take config.max_visible_windows (reorder windows (λ w. w.id) state) in
      (snapshot_of (rotate_origin shown (current state)) config.key_bindings, pruned)

abbrev is_index : Option ℕ → ℕ → Bool
is_index none i = false
is_index (some j) i = j == i

unfoldable pub initial_forward : Snapshot → ℕ
initial_forward snap = if is_index snap.origin_index 0 && ltb 1 (length snap.windows) then 1 else 0

-- `saturating_sub` is the subtraction of natural numbers.
unfoldable pub initial_backward : Snapshot → ℕ
initial_backward snap =
    let last = length snap.windows - 1 in
    if is_index snap.origin_index last && ltb 0 last then last - 1 else last

unfoldable pub has_targets : Snapshot → Bool
has_targets snap = not (is_empty snap.windows)
