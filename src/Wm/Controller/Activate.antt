-- ===== src/Wm/Controller/Activate.antt =====
-- daemon-wm/src/controller.rs: `on_activate`, `on_modifier_released`, `activate_index` and
-- `on_dwell_timeout`.
use open_sesame.Prelude.{
  ℕ, ◌+◌, ◌-◌, ◌%◌, ◌^◌, min, Bool, true, false, not, none, some, List, [], ◌∷◌, ltb, ◌&&◌, ◌==◌,
  if◌then◌else◌, is_empty, length, get_elem?,
}
use open_sesame.Prelude.Text.{Unicode}
use open_sesame.Types.{Window, internal}
use open_sesame.Wm.Config.{WmConfig}
use open_sesame.Wm.Snapshot.{Snapshot, build, initial_forward, initial_backward, has_targets}
use open_sesame.Wm.Mru.{Disk}
use open_sesame.Wm.Controller.State.{
  Command, show_border, show_picker, update_picker, hide_and_sync, hide, activate_window,
  launch_app, show_launching, reset_grace, publish, wm_overlay_shown, wm_overlay_dismissed,
  PendingLaunch, Armed, Picking, Phase, idle, armed, picking, launching, ActivationMode, forward,
  backward, launcher, launcher_backward, OverlayController, elapsed_ms, Step,
}

abbrev pub is_launcher : ActivationMode → Bool
is_launcher forward = false
is_launcher backward = false
is_launcher _ = true

abbrev is_backward : ActivationMode → Bool
is_backward backward = true
is_backward launcher_backward = true
is_backward _ = false

abbrev arm : ℕ → Snapshot → ℕ → ℕ → Phase
arm now snap selection dwell_ms = armed (record {
  entered_at = now;
  snap = snap;
  selection = selection;
  input = [];
  dwell_ms = dwell_ms;
  pending_launch = none;
})

abbrev pub shown : Bool → List Command
shown zero_window_launcher =
    show_border zero_window_launcher ∷ publish wm_overlay_shown internal ∷ []

-- The phase entered from `Idle`, by the mode.
unfoldable pub enter : ActivationMode → ℕ → WmConfig → Snapshot → OverlayController → Step
enter forward now config snap c =
    let phase = arm now snap (initial_forward snap) config.quick_switch_threshold_ms in
    (record c { phase = phase }, shown false)
enter backward now config snap c =
    let phase = arm now snap (initial_backward snap) config.quick_switch_threshold_ms in
    (record c { phase = phase }, shown false)
enter launcher now config snap c =
    let phase = arm now snap (initial_forward snap) (min config.overlay_delay_ms 100) in
    (record c { phase = phase }, shown (not (has_targets snap)))
enter launcher_backward now config snap c =
    let phase = arm now snap (initial_backward snap) (min config.overlay_delay_ms 100) in
    (record c { phase = phase }, shown (not (has_targets snap)))

-- The selection after a re-activation; the remainder is taken only of a non-empty list.
unfoldable pub cycle : ActivationMode → ℕ → ℕ → ℕ
cycle mode selection len =
    if is_backward mode then (selection + len - 1) % len else (selection + 1) % len

unfoldable pub reselect : ActivationMode → Snapshot → ℕ → ℕ
unfolding cycle
reselect mode snap selection =
    if is_empty snap.windows then selection else cycle mode selection (length snap.windows)

-- `self.last_ipc_advance = Some(Instant::now())`, if there is a window to advance to.
abbrev advanced : ℕ → Snapshot → OverlayController → OverlayController
advanced now snap c = if is_empty snap.windows then c else record c { last_ipc_advance = some now }

reactivate_armed : ActivationMode → ℕ → Armed → OverlayController → Step
unfolding reselect
reactivate_armed mode now a c =
    let selection = reselect mode a.snap a.selection in
    (
      record (advanced now a.snap c) {
        phase = picking (record {
          snap = a.snap;
          selection = selection;
          input = a.input;
          pending_launch = a.pending_launch;
        });
      },
      show_picker a.snap.overlay_windows a.snap.hints
          ∷ update_picker a.input selection
          ∷ reset_grace
          ∷ [],
    )

reactivate_picking : ActivationMode → ℕ → Picking → OverlayController → Step
unfolding reselect
reactivate_picking mode now p c =
    let selection = reselect mode p.snap p.selection in
    (
      record (advanced now p.snap c) { phase = picking (record p { selection = selection }) },
      update_picker p.input selection ∷ reset_grace ∷ [],
    )

-- `Snapshot::build` runs in `Idle` only, and is handed in with the disk that it leaves.
abbrev pub from_idle :
    ActivationMode → ℕ → WmConfig → Snapshot × Disk → OverlayController → Step × Disk
from_idle mode now config (snap, disk) c =
    if not (is_launcher mode) && not (has_targets snap)
    then ((c, []), disk)
    else (enter mode now config snap c, disk)

module _ (u : Unicode) where
  unfoldable pub on_activate :
      List Window → WmConfig → ActivationMode → ℕ → Disk → OverlayController → Step × Disk
  unfolding enter has_targets reactivate_armed reactivate_picking
  on_activate windows config mode now disk c = elim c.phase [
    | idle ↦ from_idle mode now config (build u windows config disk) c
    | armed a ↦ (reactivate_armed mode now a c, disk)
    | picking p ↦ (reactivate_picking mode now p c, disk)
    | _ ↦ ((c, []), disk)
  ]

abbrev pub dismissed : Command → List Command
dismissed command = command ∷ publish wm_overlay_dismissed internal ∷ []

unfoldable pub activate_index : ℕ → Snapshot → Step
activate_index index snap = (
  record { phase = idle; last_ipc_advance = none },
  elim (get_elem? snap.windows index) [
    | some w ↦ hide_and_sync ∷ activate_window w ∷ publish wm_overlay_dismissed internal ∷ []
    | none ↦ hide ∷ publish wm_overlay_dismissed internal ∷ []
  ],
)

unfoldable pub launch_pending : PendingLaunch → OverlayController → Step
launch_pending l c = (
  record c { phase = launching },
  show_launching ∷ launch_app l.command l.tags l.launch_args ∷ [],
)

unfoldable pub to_picking : Armed → Picking
to_picking a = record {
  snap = a.snap;
  selection = a.selection;
  input = a.input;
  pending_launch = a.pending_launch;
}

-- `as_millis() as u32` keeps the low 32 bits.
release_armed : ℕ → Armed → OverlayController → Step
unfolding activate_index launch_pending to_picking initial_forward
release_armed now a c = elim a.pending_launch [
  | some launch ↦ launch_pending launch c
  | none ↦
      if is_empty a.snap.windows
      then (
        record c { phase = picking (to_picking a) },
        show_picker a.snap.overlay_windows a.snap.hints ∷ [],
      )
      else if ltb (elapsed_ms now a.entered_at % 2 ^ 32) a.dwell_ms
          && a.selection == initial_forward a.snap
          && is_empty a.input
      then activate_index (initial_forward a.snap) a.snap
      else activate_index a.selection a.snap
]

release_picking : Picking → OverlayController → Step
unfolding activate_index launch_pending
release_picking p c = elim p.pending_launch [
  | some launch ↦ launch_pending launch c
  | none ↦ if is_empty p.snap.windows then (c, []) else activate_index p.selection p.snap
]

unfoldable pub on_modifier_released : ℕ → OverlayController → Step
unfolding release_armed release_picking
on_modifier_released now c = elim c.phase [
  | armed a ↦ release_armed now a c
  | picking p ↦ release_picking p c
  | _ ↦ (c, [])
]

unfoldable pub on_dwell_timeout : OverlayController → Step
unfolding to_picking
on_dwell_timeout c = elim c.phase [
  | armed a ↦ (
    record c { phase = picking (to_picking a) },
    show_picker a.snap.overlay_windows a.snap.hints ∷ [],
  )
  | _ ↦ (c, [])
]
