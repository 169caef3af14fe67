-- ===== src/Types/Oci/Form.antt =====
-- Which texts are references, and what is read and written.
use open_sesame.Prelude.{
  ◌≡◌, ◌↔◌, refl, sym, ap, ◌∙◌, subst, ◌⊎◌, inr, false, Option, none, some, List, [], ◌∷◌, ◌++◌,
  is_empty,
}
use open_sesame.Prelude.Text.{Text}
use open_sesame.Prelude.Split.{
  has_char, split_once, split_rest, rsplit_once, splitn, split_once-append, split_once_sound,
  rsplit_once-append, rsplit_once-has_char, rsplit_once-none, rsplit_once_sound,
}
use open_sesame.Types.Oci.{
  OciReference, OciError, with_segments, with_revision, with_provenance, from_str, show_provenance,
  show_path, show_main, fmt,
}

-- No `@` follows the provenance, or stands in a reference without one.
abbrev HasProvenance : OciReference → Option Text → Type 0
HasProvenance r none = has_char b'@' (show_main r) ≡ false
HasProvenance r (some provenance) =
    (is_empty provenance ≡ false) × (has_char b'@' provenance ≡ false)

-- The parts are not empty, and each ends where it is seen to end.
pub record IsReference (r : OciReference) : Type 0 where
  pub registry : (is_empty r.registry ≡ false) × (has_char b'/' r.registry ≡ false)
  pub principal : (is_empty r.principal ≡ false) × (has_char b'/' r.principal ≡ false)
  pub scope : is_empty r.scope ≡ false
  pub revision : (is_empty r.revision ≡ false) × (has_char b':' r.revision ≡ false)
  pub provenance : HasProvenance r r.provenance

splitn-path :
    (a b c : Text)
    → has_char b'/' a ≡ false
    → has_char b'/' b ≡ false
    → splitn 3 b'/' (a ++ b'/' ∷ (b ++ b'/' ∷ c)) ≡ a ∷ b ∷ c ∷ []
unfolding splitn
splitn-path a b c ha hb =
    ap (split_rest (splitn 2 b'/') (a ++ b'/' ∷ (b ++ b'/' ∷ c)))
      (split_once-append b'/' a (b ++ b'/' ∷ c) ha)
    ∙ ap (λ o. a ∷ split_rest (splitn 1 b'/') (b ++ b'/' ∷ c) o) (split_once-append b'/' b c hb)

-- The three pieces of a path.
abbrev IsPath : Text → List Text → Type 0
IsPath s (a ∷ b ∷ c ∷ more) =
    (s ≡ a ++ b'/' ∷ (b ++ b'/' ∷ c)) × (has_char b'/' a ≡ false) × (has_char b'/' b ≡ false)
IsPath s _ = Unit

splitn-IsPath : (s : Text) → IsPath s (splitn 3 b'/' s)
unfolding splitn
splitn-IsPath s = first (split_once b'/' s) refl
  where
    second :
        (a t : Text) (o : Option (Text × Text))
        → (s ≡ a ++ b'/' ∷ t) × (has_char b'/' a ≡ false)
        → split_once b'/' t ≡ o
        → IsPath s (a ∷ split_rest (splitn 1 b'/') t o)
    second a t none split e = tt
    second a t (some (b, c)) (split, none_before) e =
        let (split', none_before') = split_once_sound b'/' t b c e in
        (split ∙ ap (λ u. a ++ b'/' ∷ u) split', none_before, none_before')

    first :
        (o : Option (Text × Text))
        → split_once b'/' s ≡ o
        → IsPath s (split_rest (splitn 2 b'/') s o)
    first none e = tt
    first (some (a, t)) e = second a t (split_once b'/' t) (split_once_sound b'/' s a t e) refl

-- What is read from a path, a revision and a provenance.
record Reads (path revision : Text) (provenance : Option Text) (r : OciReference) : Type 0 where
  same_path : path ≡ show_path r
  same_revision : revision ≡ r.revision
  same_provenance : provenance ≡ r.provenance
  some_registry : is_empty r.registry ≡ false
  one_registry : has_char b'/' r.registry ≡ false
  some_principal : is_empty r.principal ≡ false
  one_principal : has_char b'/' r.principal ≡ false
  some_scope : is_empty r.scope ≡ false

segments-Reads :
    (path revision : Text) (provenance : Option Text) (r : OciReference) (segments : List Text)
    → IsPath path segments
    → with_segments revision provenance segments ≡ inr r
    → Reads path revision provenance r
segments-Reads path revision provenance r [] p h = cc
segments-Reads path revision provenance r (a ∷ []) p h = cc
segments-Reads path revision provenance r (a ∷ b ∷ []) p h = cc
segments-Reads path revision provenance r ([] ∷ b ∷ c ∷ more) p h = cc
segments-Reads path revision provenance r ((x ∷ a) ∷ [] ∷ c ∷ more) p h = cc
segments-Reads path revision provenance r ((x ∷ a) ∷ (y ∷ b) ∷ [] ∷ more) p h = cc
segments-Reads path revision provenance r ((x ∷ a) ∷ (y ∷ b) ∷ (z ∷ c) ∷ more) (split, one, one')
      h =
    subst (Reads path revision provenance) (inr-injective h) (record {
      same_path = split;
      same_revision = refl;
      same_provenance = refl;
      some_registry = refl;
      one_registry = one;
      some_principal = refl;
      one_principal = one';
      some_scope = refl;
    })
  where
    inr-injective : {r q : OciReference} → ◌≡◌ {A = OciError ⊎ OciReference} (inr r) (inr q) → r ≡ q
    inr-injective e = cc

-- The revision is read behind the last colon of the text.
record ReadsMain (main : Text) (provenance : Option Text) (r : OciReference) : Type 0 where
  same_main : main ≡ show_main r
  some_revision : is_empty r.revision ≡ false
  one_revision : has_char b':' r.revision ≡ false
  reads : Reads (show_path r) r.revision provenance r

revision-ReadsMain :
    (main : Text) (provenance : Option Text) (r : OciReference)
    → with_revision provenance (rsplit_once b':' main) ≡ inr r
    → ReadsMain main provenance r
revision-ReadsMain main provenance r h = found (rsplit_once b':' main) refl h
  where
    found :
        (o : Option (Text × Text))
        → rsplit_once b':' main ≡ o
        → with_revision provenance o ≡ inr r
        → ReadsMain main provenance r
    found none e h = cc
    found (some (path, [])) e h = cc
    found (some (path, x ∷ revision)) e h =
        let reads =
          segments-Reads path (x ∷ revision) provenance r (splitn 3 b'/' path) (splitn-IsPath path)
            h in
        let (split, none_after) = rsplit_once_sound b':' main path (x ∷ revision) e in
        record {
          same_main =
              split
              ∙ (ap (λ p. p ++ b':' ∷ x ∷ revision) reads.same_path
                  ∙ ap (λ t. show_path r ++ b':' ∷ t) reads.same_revision);
          some_revision = subst (λ t. is_empty t ≡ false) reads.same_revision refl;
          one_revision = subst (λ t. has_char b':' t ≡ false) reads.same_revision none_after;
          reads =
              subst (λ p. Reads p r.revision provenance r) reads.same_path
                (subst (λ t. Reads path t provenance r) reads.same_revision reads);
        }

ReadsMain-IsReference :
    (main : Text) (provenance : Option Text) (r : OciReference)
    → ReadsMain main provenance r
    → HasProvenance r provenance
    → IsReference r
ReadsMain-IsReference main provenance r m p = record {
  registry = (m.reads.some_registry, m.reads.one_registry);
  principal = (m.reads.some_principal, m.reads.one_principal);
  scope = m.reads.some_scope;
  revision = (m.some_revision, m.one_revision);
  provenance = subst (HasProvenance r) m.reads.same_provenance p;
}

from_str_sound : (s : Text) (r : OciReference) → from_str s ≡ inr r → IsReference r × (s ≡ fmt r)
unfolding from_str fmt
from_str_sound [] r h = cc
from_str_sound (x ∷ s) r h = found (rsplit_once b'@' (x ∷ s)) refl h
  where
    found :
        (o : Option (Text × Text))
        → rsplit_once b'@' (x ∷ s) ≡ o
        → with_provenance (x ∷ s) o ≡ inr r
        → IsReference r × (x ∷ s ≡ fmt r)
    found none e h =
        let m = revision-ReadsMain (x ∷ s) none r h in
        (
          ReadsMain-IsReference (x ∷ s) none r m
              (subst (λ t. has_char b'@' t ≡ false) m.same_main (rsplit_once-none b'@' (x ∷ s) e)),
          m.same_main ∙ ap (show_provenance (show_main r)) m.reads.same_provenance,
        )
    found (some (main, [])) e h = cc
    found (some (main, y ∷ provenance)) e h =
        let m = revision-ReadsMain main (some (y ∷ provenance)) r h in
        let (split, none_after) = rsplit_once_sound b'@' (x ∷ s) main (y ∷ provenance) e in
        (
          ReadsMain-IsReference main (some (y ∷ provenance)) r m (refl, none_after),
          split
              ∙ (ap (λ t. t ++ b'@' ∷ y ∷ provenance) m.same_main
                  ∙ ap (show_provenance (show_main r)) m.reads.same_provenance),
        )

is_empty-append : (a b : Text) → is_empty a ≡ false → is_empty (a ++ b) ≡ false
is_empty-append [] b h = cc
is_empty-append (x ∷ a) b h = refl

from_str-nonempty :
    (t : Text) → is_empty t ≡ false → from_str t ≡ with_provenance t (rsplit_once b'@' t)
unfolding from_str
from_str-nonempty t h = rw (h, from_str) refl

module _ (r : OciReference) (v : IsReference r) where
  with_revision-show_main : with_revision r.provenance (rsplit_once b':' (show_main r)) ≡ inr r
  with_revision-show_main =
      ap (with_revision r.provenance)
        (rsplit_once-append b':' (show_path r) r.revision v.revision.1)
      ∙ rw v.revision.0 (
          ap (with_segments r.revision r.provenance)
            (splitn-path r.registry r.principal r.scope v.registry.1 v.principal.1)
          ∙ rw (v.registry.0, v.principal.0, v.scope) refl)

  show_main-is_empty : is_empty (show_main r) ≡ false
  show_main-is_empty = is_empty-append (show_path r) _ (is_empty-append r.registry _ v.registry.0)

  from_str_complete : from_str (fmt r) ≡ inr r
  unfolding fmt
  from_str_complete = shown r.provenance refl v.provenance
    where
      with_main :
          (o : Option Text)
          → r.provenance ≡ o
          → with_revision o (rsplit_once b':' (show_main r)) ≡ inr r
      with_main o e =
          ap (λ p. with_revision p (rsplit_once b':' (show_main r))) (sym e)
          ∙ with_revision-show_main

      shown :
          (o : Option Text)
          → r.provenance ≡ o
          → HasProvenance r o
          → from_str (show_provenance (show_main r) o) ≡ inr r
      shown none e p =
          from_str-nonempty (show_main r) show_main-is_empty
          ∙ (ap (with_provenance (show_main r)) (rsplit_once-has_char b'@' (show_main r) p)
              ∙ with_main none e)
      shown (some provenance) e (some_one, no_other) =
          from_str-nonempty (show_main r ++ b'@' ∷ provenance)
            (is_empty-append (show_main r) _ show_main-is_empty)
          ∙ (ap (with_provenance (show_main r ++ b'@' ∷ provenance))
                (rsplit_once-append b'@' (show_main r) provenance no_other)
              ∙ rw some_one (with_main (some provenance) e))

-- A text is read as a reference exactly when it is what is written for it, and its parts are not empty
-- and free of the characters that end them.
pub from_str_iff :
    (s : Text) (r : OciReference) → (from_str s ≡ inr r) ↔ (IsReference r × (s ≡ fmt r))
from_str_iff s r =
    (from_str_sound s r, λ (v, e). subst (λ t. from_str t ≡ inr r) (sym e) (from_str_complete r v))
