-- ===== src/Wm/Controller/Announce/Every.antt =====
-- daemon-wm/src/controller.rs: what every event does to the surface and announces.
use open_sesame.Prelude.{ℕ, ◌≡◌, Option, some, [], arith}
use open_sesame.Prelude.Text.{Unicode}
use open_sesame.Wm.Mru.{Disk}
use open_sesame.Wm.Controller.State.{Phase, idle, OverlayController, Step, Event}
use open_sesame.Wm.Controller.Handle.{World, handle}
use open_sesame.Wm.Controller.Rules.{at, Handlers, handle-rule}
use open_sesame.Wm.Controller.Announce.{is_active, Announces}
use open_sesame.Wm.Controller.Announce.Steps.{
  on_activate-Announces, on_modifier_released-Announces, on_dwell_timeout-Announces,
  on_char-Announces, on_backspace-Announces, navigate-Announces, on_escape-Announces,
  on_confirm-Announces, on_launch_result-Announces, on_auto_unlock_result-Announces,
  on_touch_result-Announces, on_unlock_result-Announces,
}

skipped-Announces : (p : Phase) (last : Option ℕ) → Announces (is_active p) (at p last, [])
skipped-Announces idle last = ground arith
skipped-Announces _ last = ground arith

abbrev announcing : (u : Unicode) → Handlers u (λ e p s. Announces (is_active p) s)
announcing u = record {
  activated = λ e windows config mode now disk p last is.
      on_activate-Announces u windows config mode now disk p last;
  released = on_modifier_released-Announces;
  typed = on_char-Announces u;
  erased = on_backspace-Announces;
  skipped = λ e p last is. skipped-Announces p last;
  navigated = λ e move p last is. navigate-Announces move p last;
  confirmed = on_confirm-Announces;
  escaped = λ e p last is. on_escape-Announces p last;
  dwelt = on_dwell_timeout-Announces;
  launched = on_launch_result-Announces;
  auto_unlocked = on_auto_unlock_result-Announces;
  touched = on_touch_result-Announces;
  unlocked = on_unlock_result-Announces;
}

-- Every event, in every phase: after the commands the surface is mapped exactly when the controller
-- is not idle, and the step publishes one "shown" if it left the idle phase, one "dismissed" if it
-- came back to it, and nothing of either otherwise.
pub handle-Announces :
    (u : Unicode) (e : Event) (w : World) (c : OverlayController) (r : Step × Disk)
    → handle u e w c ≡ some r
    → Announces (is_active c.phase) r.0
handle-Announces u = handle-rule u (λ e p s. Announces (is_active p) s) (announcing u)
