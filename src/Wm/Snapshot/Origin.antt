-- ===== src/Wm/Snapshot/Origin.antt =====
-- The place of the origin, the window that has the focus, in a snapshot.
use mathlib.Core.List.{Perm, perm_append_singleton}
use mathlib.Core.List.Perm
use mathlib.Core.Path.{◌≡◌}
use open_sesame.Prelude.{
  ℕ, suc, ◌+◌, refl, ap, Bool, true, Bool-cases, inl, inr, Option, some, List, [], ◌∷◌, ◌++◌, arith,
  length, length-append, take, drop, remove_at, position_from,
}
use open_sesame.Prelude.Text.{Text, Unicode, text_eq, text_eq_sound}
use open_sesame.Types.{Window}
use open_sesame.Wm.Config.{WmConfig}
use open_sesame.Wm.Mru.{MruState, Disk, current, load, prune, reorder}
use open_sesame.Wm.Snapshot.{is_live, rotate_origin, build}

-- The window at an index, taken out, and the list without it.
split_at :
    (p : Window → Bool) (i n : ℕ) (ws : List Window)
    → position_from i p ws ≡ some n
    → (k : ℕ) × (w : Window) × (n ≡ i + k)
      × (p w ≡ true)
      × (take 1 (drop k ws) ≡ w ∷ [])
      × (length ws ≡ suc (length (remove_at k ws)))
      × Perm ws (w ∷ remove_at k ws)
split_at p i n [] h = cc
split_at p i n (w ∷ ws) h = elim (Bool-cases (p w)) [
  | inl hit ↦
      let at : i ≡ n = some_eq (rw hit at h) in
      (0, w, omega arith, hit, refl, refl, Perm.refl (w ∷ ws))
  | inr miss ↦
      let (k, v, at, hit, taken, len, perm) = split_at p (suc i) n ws (rw miss at h) in
      (
        suc k,
        v,
        omega arith,
        hit,
        taken,
        omega arith,
        Perm.trans (Perm.cons w perm) (Perm.swap v w (remove_at k ws)),
      )
]
  where
    some_eq : {a b : ℕ} → some a ≡ some b → a ≡ b
    some_eq e = cc

-- What the snapshot has when the window on top of the stack is shown: that window stands last, its
-- index is the origin, and the windows are those that are shown.
pub record IsRotated (shown : List Window) (id : Text) (r : List Window × Option ℕ) : Type 0 where
  pub others : List Window
  pub origin : Window
  pub named : origin.id ≡ id
  pub last : r.0 ≡ others ++ origin ∷ []
  pub index : r.1 ≡ some (length others)
  pub same : Perm r.0 shown

rotate_origin-IsRotated :
    (shown : List Window) (id : Text) (n : ℕ)
    → position_from 0 (λ w. text_eq w.id id) shown ≡ some n
    → IsRotated shown id (rotate_origin shown (some id))
unfolding rotate_origin
rotate_origin-IsRotated shown id n h =
    let (k, w, at, hit, taken, len, perm) = split_at (λ v. text_eq v.id id) 0 n shown h in
    let here : n ≡ k = omega arith in
    let rest = remove_at k shown in
    rw (h, here, taken)
      (record {
        others = rest;
        origin = w;
        named = text_eq_sound w.id id hit;
        last = refl;
        index = ap some (omega (arith, length-append rest (w ∷ [])));
        same = Perm.trans (perm_append_singleton w rest) (Perm.symm perm);
      })

module _ (u : Unicode) (windows : List Window) (config : WmConfig) (disk : Disk) where
  -- The stack that `build` reads, and the windows that it shows.
  abbrev pub state : MruState
  state = load (prune (is_live windows) disk)

  abbrev pub shown : List Window
  shown = take config.max_visible_windows (reorder windows (λ w. w.id) state)

  -- If the window on top of the stack is among those shown, the snapshot has it last, with its index
  -- as the origin, and has the windows shown, each as often.
  build-IsRotated :
      (id : Text) (n : ℕ)
      → current state ≡ some id
      → position_from 0 (λ w. text_eq w.id id) shown ≡ some n
      → IsRotated shown id
          ((build u windows config disk).0.windows, (build u windows config disk).0.origin_index)
  unfolding build
  build-IsRotated id n top found = rw top (rotate_origin-IsRotated shown id n found)
