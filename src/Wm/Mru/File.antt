-- ===== src/Wm/Mru/File.antt =====
-- The file against the stack: each function on the disk does what its counterpart does on the stack
-- that `load` reads.
use mathlib.Core.Option
use open_sesame.Prelude.{
  ◌≡◌, refl, sym, ◌∙◌, ap, Bool, true, false, not, Bool-cases, inl, inr, Option, none, some, List,
  [], ◌∷◌, arith, any, retain, All,
}
use open_sesame.Prelude.Text.{Text, text_eq}
use open_sesame.Wm.Mru.{
  MruState, Disk, parse, load, promote, is_current, written, read_locked, save_locked, save,
  keep_live, prune_locked, prune,
}
use open_sesame.Wm.Mru.Lines.{IsClean, parse-join_lines, parse-IsClean}
use open_sesame.Wm.Mru.Stack.{saved, All-retain, All-take}

-- The cache folder is there and no other process holds a lock.
pub record IsFree (d : Disk) : Type 0 where
  pub path : d.has_path ≡ true
  pub shared : d.grants_shared ≡ true
  pub exclusive : d.grants_exclusive ≡ true

load-written : (d : Disk) (s : MruState) → IsFree d → All IsClean s.stack → load (written d s) ≡ s
unfolding load
load-written d s f clean = rw (f.path, f.shared, parse-join_lines s clean)

-- What `load` reads, from the text that the locked functions start from.
load-contents : (d : Disk) → IsFree d → load d ≡ parse (read_locked d (Option.get_or d.file []))
unfolding load read_locked
load-contents d f = ground arith

promote-IsClean :
    (target : Text) (s : MruState)
    → IsClean target
    → All IsClean s.stack
    → All IsClean (promote target s).stack
unfolding promote
promote-IsClean target s c h =
    All-take IsClean 64 (target ∷ retain (λ t. not (text_eq t target)) s.stack)
      (c, All-retain IsClean (λ t. not (text_eq t target)) s.stack h)

load-save_locked :
    (target : Text) (d : Disk) (s : MruState)
    → IsFree d
    → load d ≡ s
    → IsClean target
    → All IsClean s.stack
    → load (save_locked target d s) ≡ saved target s
unfolding saved
load-save_locked target d s f e c clean = elim (Bool-cases (is_current s target)) [
  | inl top ↦ rw top e
  | inr other ↦ rw other (load-written d (promote target s) f (promote-IsClean target s c clean))
]

load-opened :
    (target contents : Text) (d : Disk)
    → IsFree d
    → IsClean target
    → load (save_locked target (record d { file = some contents }) (parse (read_locked d contents)))
      ≡ saved target (parse (read_locked d contents))
unfolding read_locked
load-opened target contents d f c =
    let opened : Disk = record d { file = some contents } in
    let free : IsFree opened = record {
      path = f.path;
      shared = f.shared;
      exclusive = f.exclusive;
    } in
    load-save_locked target opened (parse (read_locked d contents)) free (load-contents opened free)
      c (parse-IsClean (read_locked d contents))

save-free :
    (target : Text) (d : Disk)
    → IsFree d
    → save target d
      ≡ save_locked target
          (record d { file = some (Option.get_or d.file []) })
          (parse (read_locked d (Option.get_or d.file [])))
unfolding save
save-free target d f = rw (f.path, f.exclusive)

-- With the folder there and the locks free, saving a window in the file is saving it in the stack:
-- whatever the file held before, what is read back is the new stack.
pub load-save :
    (target : Text) (d : Disk)
    → IsFree d
    → IsClean target
    → load (save target d) ≡ saved target (load d)
load-save target d f c =
    rw (save-free target d f, load-contents d f)
      (load-opened target (Option.get_or d.file []) d f c)

keep_live-IsClean :
    (live : Text → Bool) (s : MruState) → All IsClean s.stack → All IsClean (keep_live live s).stack
unfolding keep_live
keep_live-IsClean live s h = All-retain IsClean live s.stack h

stack_of : List Text → MruState
stack_of ts = record { stack = ts }

retain-none :
    (live : Text → Bool) (ts : List Text)
    → any (λ id. not (live id)) ts ≡ false
    → retain live ts ≡ ts
retain-none live [] h = refl
retain-none live (t ∷ ts) h = ground (arith, retain-none live ts)

load-prune_locked :
    (live : Text → Bool) (d : Disk) (s : MruState)
    → IsFree d
    → load d ≡ s
    → All IsClean s.stack
    → load (prune_locked live d s) ≡ keep_live live s
unfolding keep_live stack_of
load-prune_locked live d s f e clean = elim (Bool-cases (any (λ id. not (live id)) s.stack)) [
  | inl dead ↦ rw dead (load-written d (keep_live live s) f (keep_live-IsClean live s clean))
  | inr none_dead ↦ rw none_dead (e ∙ kept none_dead)
]
  where
    kept : any (λ id. not (live id)) s.stack ≡ false → s ≡ record { stack = retain live s.stack }
    kept h = ap stack_of (sym (retain-none live s.stack h))

prune-free :
    (live : Text → Bool) (d : Disk) (contents : Text)
    → IsFree d
    → d.file ≡ some contents
    → prune live d ≡ prune_locked live d (parse (read_locked d contents))
unfolding prune
prune-free live d contents f e = ground arith

load-prune_at :
    (live : Text → Bool) (d : Disk) (file : Option Text)
    → IsFree d
    → load (prune live (record d { file = file }))
      ≡ keep_live live (load (record d { file = file }))
load-prune_at live d none f = unfold prune load keep_live in refl
load-prune_at live d (some contents) f =
    let there : Disk = record d { file = some contents } in
    let free : IsFree there = record {
      path = f.path;
      shared = f.shared;
      exclusive = f.exclusive;
    } in
    let s = parse (read_locked there contents) in
    rw (prune-free live there contents free refl, load-contents there free)
      (load-prune_locked live there s free (load-contents there free)
        (parse-IsClean (read_locked there contents)))

-- With the folder there and the locks free, pruning the file is pruning the stack: what is read
-- back are the entries that are live, in their order.
load-prune :
    (live : Text → Bool) (d : Disk) → IsFree d → load (prune live d) ≡ keep_live live (load d)
load-prune live d f = load-prune_at live d d.file f
