-- ===== src/Wm/Snapshot/Shape.antt =====
-- The shape of a snapshot: its lists run in parallel, and its initial selections are in range.
use open_sesame.Prelude.{ℕ, ◌-◌, ◌≤◌, ◌<◌, ◌≡◌, ◌≢◌, Option, some, List, arith, length, length-map}
use open_sesame.Prelude.Text.{Unicode}
use open_sesame.Types.{Window}
use open_sesame.Wm.Config.{WmConfig, KeyBindings}
use open_sesame.Wm.Hints.Assign.{length-assign_app_hints}
use open_sesame.Wm.Mru.{Disk}
use open_sesame.Wm.Snapshot.{Snapshot, snapshot_of, build, initial_forward, initial_backward}

pub record IsParallel (snap : Snapshot) : Type 0 where
  pub hints_parallel : length snap.hints ≡ length snap.windows
  pub overlay_parallel : length snap.overlay_windows ≡ length snap.windows

module _ (u : Unicode) where
  snapshot_of-IsParallel :
      (r : List Window × Option ℕ) (bindings : KeyBindings) → IsParallel (snapshot_of u r bindings)
  unfolding snapshot_of
  snapshot_of-IsParallel (windows, origin) bindings = record {
    hints_parallel = rw (length-map, length-assign_app_hints, length-map);
    overlay_parallel = length-map _ windows;
  }

  pub build-IsParallel :
      (windows : List Window) (config : WmConfig) (disk : Disk)
      → IsParallel (build u windows config disk).0
  unfolding build
  build-IsParallel windows config disk = snapshot_of-IsParallel _ config.key_bindings

-- The initial selections: the greatest index is the bound, which is 0 in an empty list.
pub initial_forward-le : (snap : Snapshot) → initial_forward snap ≤ length snap.windows - 1
unfolding initial_forward
initial_forward-le snap = ground arith

pub initial_backward-le : (snap : Snapshot) → initial_backward snap ≤ length snap.windows - 1
unfolding initial_backward
initial_backward-le snap = ground arith

-- Of several windows the origin is selected neither forward nor backward.
initial-ne-origin :
    (snap : Snapshot)
    → 1 < length snap.windows
    → (snap.origin_index ≢ some (initial_forward snap))
      × (snap.origin_index ≢ some (initial_backward snap))
unfolding initial_forward initial_backward
initial-ne-origin snap several = (λ e. ground arith, λ e. ground arith)
