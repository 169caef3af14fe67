-- ===== src/Wm/Controller/History.antt =====
-- What holds over every history of the controller, whatever the events and their order.
use open_sesame.Prelude.{ℕ, ◌≡◌, refl, Bool, false, some, List, [], ◌∷◌, ◌++◌}
use open_sesame.Prelude.Text.{Unicode}
use open_sesame.Wm.Controller.State.{Command, Phase, Event, OverlayController, Step, new}
use open_sesame.Wm.Controller.Handle.{World, run, run-cons}
use open_sesame.Wm.Controller.Valid.{IsValid}
use open_sesame.Wm.Controller.Valid.Handle.{handle-IsValid}
use open_sesame.Wm.Controller.Announce.{is_active, mapped_after}
use open_sesame.Wm.Controller.Announce.Every.{handle-Announces}
use open_sesame.Wm.Controller.Password.{Fits, buffer, buffer_after, handle-Fits}

mapped_after-append :
    (b : Bool) (xs ys : List Command)
    → mapped_after b (xs ++ ys) ≡ mapped_after (mapped_after b xs) ys
mapped_after-append b [] ys = refl
mapped_after-append b (x ∷ xs) ys = mapped_after-append _ xs ys

buffer_after-append :
    (n : ℕ) (xs ys : List Command) → buffer_after n (xs ++ ys) ≡ buffer_after (buffer_after n xs) ys
unfolding buffer_after
buffer_after-append n [] ys = refl
buffer_after-append n (x ∷ xs) ys = buffer_after-append (buffer x n) xs ys

-- A run from a valid state returns; the state is valid, the surface is mapped exactly when the
-- controller is active, and the password buffer fits.
record IsGood (start : Phase) (n : ℕ) (s : Step) : Type 0 where
  valid : IsValid s.0.phase
  surface : mapped_after (is_active start) s.1 ≡ is_active s.0.phase
  buffer : Fits (buffer_after n s.1) s.0.phase

module _ (u : Unicode) where
  run-IsGood :
      (events : List (Event × World)) (c : OverlayController) (n : ℕ)
      → IsValid c.phase
      → Fits n c.phase
      → (s : Step) × (run u events c ≡ some s) × IsGood c.phase n s
  unfolding run buffer_after
  run-IsGood [] c n v f = ((c, []), refl, record { valid = v; surface = refl; buffer = f })
  run-IsGood ((e, w) ∷ rest) c n v f =
      let (r, eq, v') = handle-IsValid u e w c v in
      let f' = handle-Fits u e w c r n eq f in
      let (s, eqs, g) = run-IsGood rest r.0.0 (buffer_after n r.0.1) v' f' in
      (
        (s.0, r.0.1 ++ s.1),
        run-cons u e w rest c r s eq eqs,
        record {
          valid = g.valid;
          surface = rw (mapped_after-append, (handle-Announces u e w c r eq).surface) g.surface;
          buffer = rw buffer_after-append g.buffer;
        },
      )

  -- From the new controller, every sequence of events is handled without an index out of range; at
  -- its end the selection, the input and the staged launch are as `IsValid` says, the surface is
  -- mapped exactly when the controller is not idle, and the password buffer holds no more characters
  -- than the unlocking phase counts, and none in any other phase.
  pub run-new :
      (events : List (Event × World))
      → (s : Step) × (run u events new ≡ some s)
        × IsValid s.0.phase
        × (mapped_after false s.1 ≡ is_active s.0.phase)
        × Fits (buffer_after 0 s.1) s.0.phase
  unfolding new
  run-new events =
      let (s, eq, g) = run-IsGood events new 0 tt refl in (s, eq, g.valid, g.surface, g.buffer)
