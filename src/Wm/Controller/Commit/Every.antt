-- ===== src/Wm/Controller/Commit/Every.antt =====
-- daemon-wm/src/controller.rs: what every event commits to.
use open_sesame.Prelude.{ℕ, ◌≡◌, refl, Option, some, []}
use open_sesame.Prelude.Text.{Unicode}
use open_sesame.Wm.Mru.{Disk}
use open_sesame.Wm.Controller.State.{Phase, OverlayController, Step, Event, char}
use open_sesame.Wm.Controller.Typing.{on_char}
use open_sesame.Wm.Controller.Handle.{World, handle}
use open_sesame.Wm.Controller.Rules.{at, Handlers, handle-rule}
use open_sesame.Wm.Controller.Commit.{Commits, IsQuiet}
use open_sesame.Wm.Controller.Commit.Steps.{
  activation-IsQuiet, navigation-IsQuiet, exit-IsQuiet, on_activate-IsQuiet,
  on_modifier_released-Commits, on_char-IsQuiet, on_backspace-Commits, navigate-IsQuiet,
  on_escape-IsQuiet, on_confirm-Commits, on_dwell_timeout-Commits, on_launch_result-Commits,
  on_auto_unlock_result-Commits, on_touch_result-Commits, on_unlock_result-Commits,
}

quiet : (p : Phase) (last : Option ℕ) → IsQuiet (at p last, [])
quiet p last = record { no_window = refl; no_launch = refl }

typed-Commits :
    (u : Unicode) (ch : ℕ) (p : Phase) (last : Option ℕ)
    → Commits (char ch) p (on_char u ch (at p last))
typed-Commits u ch p last =
    let q = on_char-IsQuiet u ch p last in
    record { windows = q.no_window; applications = q.no_launch }

abbrev committing : (u : Unicode) → Handlers u Commits
committing u = record {
  activated = λ e windows config mode now disk p last is.
      activation-IsQuiet e p _ is (on_activate-IsQuiet u windows config mode now disk p last);
  released = on_modifier_released-Commits;
  typed = typed-Commits u;
  erased = on_backspace-Commits;
  skipped = λ e p last is. navigation-IsQuiet e p _ is (quiet p last);
  navigated = λ e move p last is. navigation-IsQuiet e p _ is (navigate-IsQuiet move p last);
  confirmed = on_confirm-Commits;
  escaped = λ e p last is. exit-IsQuiet e p _ is (on_escape-IsQuiet p last);
  dwelt = on_dwell_timeout-Commits;
  launched = on_launch_result-Commits;
  auto_unlocked = on_auto_unlock_result-Commits;
  touched = on_touch_result-Commits;
  unlocked = on_unlock_result-Commits;
}

-- Every event, in every phase, activates and launches exactly what `committed_windows` and
-- `committed_launches` say: nothing before Alt is released, Enter is pressed or the last vault is
-- unlocked, and then the window under the selection or the launch that waits.
pub handle-Commits :
    (u : Unicode) (e : Event) (w : World) (c : OverlayController) (r : Step × Disk)
    → handle u e w c ≡ some r
    → Commits e c.phase r.0
handle-Commits u = handle-rule u Commits (committing u)
