-- ===== src/Tests/Controller.antt =====
-- Tests of the overlay's controller and instances of its theorems.
use open_sesame.Prelude.{◌≡◌, refl, true, false, some, none, List, [], ◌∷◌, arith, replicate}
use open_sesame.Prelude.Text.{is_whitespace, codes, ascii, text_eq}
use open_sesame.Types.{internal}
use open_sesame.Wm.Mru.{reorder, load, insert_by, prune, Disk, current}
use open_sesame.Wm.Snapshot.{is_live, Snapshot, build}
use open_sesame.Wm.Controller.State.{
  hide, hide_and_sync, activate_window, publish, wm_overlay_dismissed, clear_password_buffer, Event,
  activate, char, backspace, modifier_released, confirm, escape, unlock_result, idle, picking,
  launching, unlocking, Picking, Unlocking, password, PendingLaunch, Step, new,
}
use open_sesame.Wm.Controller.Activate.{on_activate, on_modifier_released}
use open_sesame.Wm.Controller.Input.{on_confirm, on_escape}
use open_sesame.Wm.Controller.Handle.{World, handle, run}
use open_sesame.Wm.Controller.Rules.{at}
use open_sesame.Wm.Controller.Valid.{IsValid}
use open_sesame.Wm.Controller.Announce.{is_active, mapped_after, Announces}
use open_sesame.Wm.Controller.Announce.Every.{handle-Announces}
use open_sesame.Wm.Controller.Commit.{Commits, launches}
use open_sesame.Wm.Controller.Commit.Every.{handle-Commits}
use open_sesame.Wm.Controller.Password.{Fits, buffer_after, handle-Fits}
use open_sesame.Wm.Controller.History.{run-new}
use open_sesame.Wm.Controller.Progress.{attempts, profile_activations, run-unlock_result}
use open_sesame.Tests.Window.{browser, terminal, config, disk, world}

abbrev switch : List (Event × World)
switch =
    (activate, world) ∷ (char b'g', world) ∷ (backspace, world) ∷ (modifier_released, world) ∷ []

run-new_example :
    (s : Step) × (run ascii switch new ≡ some s)
    × IsValid s.0.phase
    × (mapped_after false s.1 ≡ is_active s.0.phase)
    × Fits (buffer_after 0 s.1) s.0.phase
run-new_example = run-new ascii switch

abbrev snap : Snapshot
snap = record {
  windows = terminal ∷ browser ∷ [];
  hints = codes "g" ∷ codes "f" ∷ [];
  overlay_windows =
      record { app_id = terminal.app_id; title = terminal.title }
      ∷ record { app_id = browser.app_id; title = browser.title }
      ∷ [];
  origin_index = some 1;
  key_bindings = config.key_bindings;
}

abbrev staged : PendingLaunch
staged = record { command = codes "thunderbird"; tags = codes "work:corp" ∷ []; launch_args = [] }

abbrev browsing : Picking
browsing = record { snap = snap; selection = 1; input = codes "m"; pending_launch = some staged }

abbrev vaults : Unlocking
vaults = record {
  profiles_to_unlock = codes "work" ∷ codes "home" ∷ [];
  current_index = 0;
  password_len = 3;
  unlock_mode = password;
  retry_command = codes "thunderbird";
  retry_tags = codes "work:corp" ∷ [];
  retry_launch_args = [];
}

-- Pressing Alt+Tab and letting go activates the terminal.
quick_switch :
    (s : Step) × (run ascii ((activate, world) ∷ (modifier_released, world) ∷ []) new ≡ some s)
    × (s.0.phase ≡ idle)
unfolding run handle on_activate new build on_modifier_released current load prune is_whitespace
    is_live text_eq reorder insert_by
quick_switch = (_, refl, refl)

-- Enter activates the selected window, also with a launch staged.
abbrev entered : Step × Disk
entered = (
  (
    at idle none,
    hide_and_sync ∷ activate_window browser ∷ publish wm_overlay_dismissed internal ∷ [],
  ),
  disk,
)

entered_lem : handle ascii confirm world (at (picking browsing) none) ≡ some entered
unfolding handle on_confirm
entered_lem = refl

handle-Commits_example : Commits confirm (picking browsing) entered.0
handle-Commits_example =
    handle-Commits ascii confirm world (at (picking browsing) none) entered entered_lem

handle-Announces_example : Announces true entered.0
handle-Announces_example =
    handle-Announces ascii confirm world (at (picking browsing) none) entered entered_lem

abbrev escaped : Step × Disk
escaped = (
  (at idle none, clear_password_buffer ∷ hide ∷ publish wm_overlay_dismissed internal ∷ []),
  disk,
)

escaped_lem : handle ascii escape world (at (unlocking vaults) none) ≡ some escaped
unfolding handle on_escape
escaped_lem = refl

handle-Fits_example : Fits (buffer_after 3 escaped.0.1) idle
handle-Fits_example =
    handle-Fits ascii escape world (at (unlocking vaults) none) escaped 3 escaped_lem (omega arith)

run-unlock_result_example :
    (s : Step) × (run ascii
        (replicate 2 (unlock_result true (codes "work"), world))
        (at (unlocking vaults) none)
      ≡ some s)
    × (s.0.phase ≡ launching)
    × (attempts s.1 ≡ codes "home" ∷ [])
    × (profile_activations s.1 ≡ (codes "work" ∷ codes "home" ∷ []) ∷ [])
    × (launches s.1 ≡ staged ∷ [])
run-unlock_result_example = run-unlock_result ascii world (codes "work") 1 vaults none refl
