-- ===== src/Wm/Controller/Cycle.antt =====
-- Moving through the windows, and the key that repeats a re-activation.
use native.Mathlib.Nat.{mod-eq_of_lt, mod_self, mod-add-mod, add-zero}
use open_sesame.Prelude.{
  ℕ, zero, suc, ◌+◌, ◌-◌, ◌%◌, ◌<◌, ◌≡◌, refl, ap, ◌∙◌, false, Option, none, some, List, [], ◌∷◌,
  arith, length, is_empty, replicate, lt→ltb,
}
use open_sesame.Prelude.Text.{Unicode}
use open_sesame.Types.{Window}
use open_sesame.Wm.Config.{WmConfig}
use open_sesame.Wm.Mru.{Disk}
use open_sesame.Wm.Controller.State.{
  update_picker, Phase, armed, picking, Picking, selection_down, OverlayController, Step,
  ActivationMode, elapsed_ms, reactivation_dedup_ms,
}
use open_sesame.Wm.Controller.Activate.{on_activate, on_modifier_released}
use open_sesame.Wm.Controller.Input.{down, up, on_selection_down}
use open_sesame.Wm.Controller.Handle.{World, handle, run, run-cons}
use open_sesame.Wm.Controller.Rules.{at}

down-inner : (i len : ℕ) → i + 1 < len → down i len ≡ i + 1
unfolding down
down-inner i len h = mod-eq_of_lt h

down-last : (i len : ℕ) → i + 1 ≡ len → down i len ≡ 0
unfolding down
down-last i len e = rw e (mod_self len)

-- Down and up undo one another on the windows' indices.
up-down : (i len : ℕ) → i < len → (up (down i len) len ≡ i) × (down (up i len) len ≡ i)
unfolding up
up-down i len h = (
  ground (arith, down-inner i len, down-last i len),
  ground (arith, down-inner (i - 1) len, down-last (len - 1) len),
)

down-lt : (i len : ℕ) → i < len → down i len < len
down-lt i len h = ground (arith, down-inner i len, down-last i len)

down-add : (i n len : ℕ) → (down i len + n) % len ≡ (i + suc n) % len
unfolding down
down-add i n len = mod-add-mod (i + 1) len n ∙ ap (λ (k : ℕ). k % len) (omega arith)

nonempty : (windows : List Window) → 0 < length windows → is_empty windows ≡ false
nonempty [] h = absurd (omega arith)
nonempty (w ∷ windows) h = refl

module _ (u : Unicode) (w : World) where
  down_step :
      (p : Picking)
      → is_empty p.snap.windows ≡ false
      → handle u selection_down w (at (picking p) none)
        ≡ some (
          (
            at (picking (record p { selection = down p.selection (length p.snap.windows) })) none,
            update_picker p.input (down p.selection (length p.snap.windows)) ∷ [],
          ),
          w.disk,
        )
  unfolding handle on_selection_down
  down_step p h = rw h

  -- With a selection in range and no re-activation to answer, `n` presses of "down" in the picker
  -- move the selection by `n` round the list, and give `n` commands.
  run-selection_down :
      (n : ℕ) (p : Picking)
      → p.selection < length p.snap.windows
      → (s : Step) × (run u (replicate n (selection_down, w)) (at (picking p) none) ≡ some s)
        × (s.0
            ≡ at
                (picking (record p { selection = (p.selection + n) % length p.snap.windows }))
                none)
        × (length s.1 ≡ n)
  unfolding run
  run-selection_down zero p h =
      ((at (picking p) none, []), refl, rw (add-zero, mod-eq_of_lt h), refl)
  run-selection_down (suc n) p h =
      let len = length p.snap.windows in
      let p' = record p { selection = down p.selection len } in
      let (s, eq, end, count) = run-selection_down n p' (down-lt p.selection len h) in
      (
        (s.0, update_picker p.input (down p.selection len) ∷ s.1),
        run-cons u selection_down w (replicate n (selection_down, w)) (at (picking p) none)
            ((at (picking p') none, update_picker p.input (down p.selection len) ∷ []), w.disk) s
            (down_step p (nonempty p.snap.windows (omega arith))) eq,
        end
            ∙ ap (λ (i : ℕ). at (picking (record p { selection = i })) none)
                (down-add p.selection n len),
        ap suc count,
      )

-- Releasing Alt does not depend on how long the overlay was up: the two branches on the dwell time
-- activate the same window.
on_modifier_released-now :
    (now later : ℕ) (c : OverlayController)
    → on_modifier_released now c ≡ on_modifier_released later c
on_modifier_released-now now later c = released c.phase c.last_ipc_advance
  where
    released :
        (p : Phase) (last : Option ℕ)
        → on_modifier_released now (at p last) ≡ on_modifier_released later (at p last)
    released (armed a) last = unfold on_modifier_released in ground arith
    released (picking a) last = unfold on_modifier_released in ground arith
    released _ last = unfold on_modifier_released in refl

module _ (u : Unicode) (windows : List Window) (config : WmConfig) (mode : ActivationMode) (now : ℕ)
    (disk : Disk) (p : Picking) (some_window : is_empty p.snap.windows ≡ false) where
  -- After a re-activation has moved the selection among windows, the arrow key that comes within
  -- 100 ms leaves the phase as it is and shows nothing, and uses the mark up, so that the next one
  -- moves.
  on_selection_down-reactivated :
      (last : Option ℕ) (later : ℕ)
      → elapsed_ms later now < reactivation_dedup_ms
      → on_selection_down later
          (on_activate u windows config mode now disk (at (picking p) last)).0.0
        ≡ (at (on_activate u windows config mode now disk (at (picking p) last)).0.0.phase none, [])
  unfolding on_activate on_selection_down
  on_selection_down-reactivated last later soon =
      rw (some_window, lt→ltb (elapsed_ms later now) reactivation_dedup_ms soon)
