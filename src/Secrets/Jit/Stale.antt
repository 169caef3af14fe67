-- ===== src/Secrets/Jit/Stale.antt =====
-- How old a secret can be that the cache delivers.
use open_sesame.Prelude.{
  ℕ, ◌+◌, ◌-◌, ◌≡◌, ◌≤◌, ◌<◌, ◌⊎◌, refl, sym, ◌∙◌, ap, subst, inl, inr, true, false, Bool-cases,
  Option-cases, none, some, List, [], ◌∷◌, arith, ltb, ltb→lt, lt→ltb,
}
use mathlib.Core.List.{Memᴰ}
use open_sesame.Prelude.Text.{Text}
use open_sesame.Prelude.Maps.{list_eq, get, insert, get-insert, get-insert_iff}
use open_sesame.Secrets.Jit.{
  SecretsStore, CachedSecret, JitDelivery, new, Instants, cached_value, fetch, resolve, flush,
}

module _ (store : SecretsStore) (ttl : ℕ) where
  -- The deliveries that calls and flushes lead to, from the empty one: with the time, and with the calls
  -- since the last flush that found nothing in the cache and asked the store, the last one first.
  pub data Reaches : ℕ → List (Text × Instants) → JitDelivery → Type 0 where
    started : Reaches 0 [] (new ttl)
    delivered :
        {time : ℕ} {asked : List (Text × Instants)} {jit : JitDelivery} (key : Text) (at : Instants)
        (value : Text)
        → Reaches time asked jit
        → time ≤ at.checked
        → cached_value jit key at.checked ≡ some value
        → Reaches at.checked asked (resolve store key at jit).1
    fetched :
        {time : ℕ} {asked : List (Text × Instants)} {jit : JitDelivery} (key : Text) (at : Instants)
        → Reaches time asked jit
        → time ≤ at.checked
        → at.checked ≤ at.answered
        → at.answered ≤ at.kept
        → cached_value jit key at.checked ≡ none
        → Reaches at.kept ((key, at) ∷ asked) (resolve store key at jit).1
    flushed :
        {time : ℕ} {asked : List (Text × Instants)} {jit : JitDelivery}
        → Reaches time asked jit
        → Reaches time [] (flush jit)

  -- The value is what the store answered to a call for the key that asked it, and that kept it then.
  record IsAnswer (asked : List (Text × Instants)) (key value : Text) (kept time : ℕ) : Type 0 where
    pub at : Instants
    pub among : Memᴰ (key, at) asked
    pub answer : store at.answered key ≡ some value
    pub then_kept : at.kept ≡ kept
    pub past : kept ≤ time

  -- Every cached secret is such an answer.
  record IsSound (time : ℕ) (asked : List (Text × Instants)) (jit : JitDelivery) : Type 0 where
    same_ttl : jit.ttl ≡ ttl
    answers :
        (key : Text) (c : CachedSecret)
        → get jit.cache key ≡ some c
        → IsAnswer asked key c.value c.fetched_at time

  IsAnswer-later :
      (asked : List (Text × Instants)) (key value : Text) (kept time later : ℕ)
      → time ≤ later
      → IsAnswer asked key value kept time
      → IsAnswer asked key value kept later
  IsAnswer-later asked key value kept time later h a =
      let past = a.past in
      record {
        at = a.at;
        among = a.among;
        answer = a.answer;
        then_kept = a.then_kept;
        past = omega arith;
      }

  IsSound-later :
      (time later : ℕ) (asked : List (Text × Instants)) (jit : JitDelivery)
      → time ≤ later
      → IsSound time asked jit
      → IsSound later asked jit
  IsSound-later time later asked jit h s = record {
    same_ttl = s.same_ttl;
    answers =
        λ key c e. IsAnswer-later asked key c.value c.fetched_at time later h (s.answers key c e);
  }

  new-IsSound : IsSound 0 [] (new ttl)
  unfolding new get
  new-IsSound = record { same_ttl = refl; answers = λ key c h. cc }

  flush-IsSound :
      (time : ℕ) (asked : List (Text × Instants)) (jit : JitDelivery)
      → IsSound time asked jit
      → IsSound time [] (flush jit)
  unfolding flush get
  flush-IsSound time asked jit s = record { same_ttl = s.same_ttl; answers = λ key c h. cc }

  resolve-hit :
      (key : Text) (at : Instants) (jit : JitDelivery) (value : Text)
      → cached_value jit key at.checked ≡ some value
      → resolve store key at jit ≡ (some value, jit)
  unfolding resolve
  resolve-hit key at jit value hit = rw (hit, resolve) refl

  resolve-miss :
      (key : Text) (at : Instants) (jit : JitDelivery)
      → cached_value jit key at.checked ≡ none
      → resolve store key at jit ≡ fetch store key at jit
  unfolding resolve
  resolve-miss key at jit miss = rw (miss, resolve) refl

  -- What was answered before is answered still, with one call more.
  IsAnswer-more :
      (call : Text × Instants) (asked : List (Text × Instants)) (key value : Text) (kept time : ℕ)
      → IsAnswer asked key value kept time
      → IsAnswer (call ∷ asked) key value kept time
  IsAnswer-more call asked key value kept time a = record {
    at = a.at;
    among = Memᴰ.tail a.among;
    answer = a.answer;
    then_kept = a.then_kept;
    past = a.past;
  }

  fetch-IsSound :
      (key : Text) (at : Instants) (asked : List (Text × Instants)) (jit : JitDelivery)
      → IsSound at.kept asked jit
      → IsSound at.kept ((key, at) ∷ asked) (fetch store key at jit).1
  unfolding fetch
  fetch-IsSound key at asked jit s = elim (Option-cases (store at.answered key)) [
    | inl failed ↦ rw (failed, fetch) (record { same_ttl = s.same_ttl; answers = before })
    | inr (value, answer) ↦
        rw (answer, fetch)
          (record { same_ttl = s.same_ttl; answers = λ k c h. kept value answer k c h })
  ]
    where
      before :
          (k : Text) (c : CachedSecret)
          → get jit.cache k ≡ some c
          → IsAnswer ((key, at) ∷ asked) k c.value c.fetched_at at.kept
      before k c h = IsAnswer-more (key, at) asked k c.value c.fetched_at at.kept (s.answers k c h)

      now :
          (value : Text)
          → store at.answered key ≡ some value
          → IsAnswer ((key, at) ∷ asked) key value at.kept at.kept
      now value answer = record {
        at = at;
        among = Memᴰ.head refl;
        answer = answer;
        then_kept = refl;
        past = omega arith;
      }

      kept :
          (value : Text)
          → store at.answered key ≡ some value
          → (k : Text) (c : CachedSecret)
          → get (insert key (record { value = value; fetched_at = at.kept }) jit.cache) k ≡ some c
          → IsAnswer ((key, at) ∷ asked) k c.value c.fetched_at at.kept
      kept value answer k c h =
          elim ((get-insert_iff key k (record { value = value; fetched_at = at.kept }) jit.cache
              c).0
            h) [
              | inl (same_key, same) ↦
                  subst (λ j. IsAnswer ((key, at) ∷ asked) j c.value c.fetched_at at.kept) same_key
                    (subst (λ d. IsAnswer ((key, at) ∷ asked) key d.value d.fetched_at at.kept) same
                      (now value answer))
              | inr (_, old) ↦ before k c old
            ]

  Reaches-IsSound :
      {time : ℕ} {asked : List (Text × Instants)} {jit : JitDelivery}
      → Reaches time asked jit
      → IsSound time asked jit
  Reaches-IsSound started = new-IsSound
  Reaches-IsSound (delivered {time} {asked} {jit} key at value before later hit) =
      subst (λ r. IsSound at.checked asked r.1) (sym (resolve-hit key at jit value hit))
        (IsSound-later time at.checked asked jit later (Reaches-IsSound before))
  Reaches-IsSound (fetched {time} {asked} {jit} key at before later answered kept miss) =
      subst (λ r. IsSound at.kept ((key, at) ∷ asked) r.1) (sym (resolve-miss key at jit miss))
        (fetch-IsSound key at asked jit
          (IsSound-later time at.kept asked jit (omega arith) (Reaches-IsSound before)))
  Reaches-IsSound (flushed {time} {asked} {jit} before) =
      flush-IsSound time asked jit (Reaches-IsSound before)

  -- The store's answer to a call since the last flush, kept no longer than the time to live.
  pub record IsRecent (asked : List (Text × Instants)) (key value : Text) (now : ℕ) : Type 0 where
    pub at : Instants
    pub among : Memᴰ (key, at) asked
    pub answer : store at.answered key ≡ some value
    pub past : at.kept ≤ now
    pub recent : now < at.kept + ttl

  IsAnswer-IsRecent :
      (asked : List (Text × Instants)) (key value : Text) (kept now : ℕ)
      → now - kept < ttl
      → IsAnswer asked key value kept now
      → IsRecent asked key value now
  IsAnswer-IsRecent asked key value kept now young a =
      let past = a.past in
      let same = a.then_kept in
      record {
        at = a.at;
        among = a.among;
        answer = a.answer;
        past = omega arith;
        recent = omega arith;
      }

  cached_value-IsRecent :
      (key : Text) (now : ℕ) (asked : List (Text × Instants)) (jit : JitDelivery) (value : Text)
      → IsSound now asked jit
      → cached_value jit key now ≡ some value
      → IsRecent asked key value now
  unfolding cached_value
  cached_value-IsRecent key now asked jit value s hit = elim (Option-cases (get jit.cache key)) [
    | inl absent ↦ absurd (none-ne (sym (cached_value-absent absent) ∙ hit))
    | inr (c, present) ↦ elim (Bool-cases (ltb (now - c.fetched_at) jit.ttl)) [
      | inl young ↦
          let same : c.value ≡ value =
            some-inj c.value (sym (cached_value-young c present young) ∙ hit) in
          IsAnswer-IsRecent asked key value c.fetched_at now
            (subst (λ t. now - c.fetched_at < t) s.same_ttl
              (ltb→lt (now - c.fetched_at) jit.ttl young))
            (subst (λ v. IsAnswer asked key v c.fetched_at now) same (s.answers key c present))
      | inr old ↦ absurd (none-ne (sym (cached_value-old c present old) ∙ hit))
    ]
  ]
    where
      none-ne : none ≡ some value → ⊥
      none-ne d = cc

      some-inj : (v : Text) → some v ≡ some value → v ≡ value
      some-inj v d = cc

      cached_value-absent : get jit.cache key ≡ none → cached_value jit key now ≡ none
      cached_value-absent e = rw (e, cached_value) refl

      cached_value-young :
          (c : CachedSecret)
          → get jit.cache key ≡ some c
          → ltb (now - c.fetched_at) jit.ttl ≡ true
          → cached_value jit key now ≡ some c.value
      cached_value-young c e y = rw (e, cached_value, y) refl

      cached_value-old :
          (c : CachedSecret)
          → get jit.cache key ≡ some c
          → ltb (now - c.fetched_at) jit.ttl ≡ false
          → cached_value jit key now ≡ none
      cached_value-old c e o = rw (e, cached_value, o) refl

  fetch-value :
      (key : Text) (at : Instants) (jit : JitDelivery)
      → (fetch store key at jit).0 ≡ store at.answered key
  unfolding fetch
  fetch-value key at jit = elim (Option-cases (store at.answered key)) [
    | inl failed ↦ rw (failed, fetch) refl
    | inr (value, answer) ↦ rw (answer, fetch) refl
  ]

  -- After any calls and flushes, a secret that is delivered is the store's answer to this call, or its
  -- answer to one of the calls for the same key that asked it since the last flush, and less than the
  -- time to live has passed since that call kept it.
  pub resolve-IsRecent :
      (key : Text) (at : Instants) (time : ℕ) (asked : List (Text × Instants)) (jit : JitDelivery)
      (value : Text)
      → Reaches time asked jit
      → time ≤ at.checked
      → (resolve store key at jit).0 ≡ some value
      → (store at.answered key ≡ some value) ⊎ IsRecent asked key value at.checked
  resolve-IsRecent key at time asked jit value reaches later h =
      elim (Option-cases (cached_value jit key at.checked)) [
        | inl miss ↦
            inl (sym (ap (λ r. r.0) (resolve-miss key at jit miss) ∙ fetch-value key at jit) ∙ h)
        | inr (v, hit) ↦ inr (
            cached_value-IsRecent key at.checked asked jit value
              (IsSound-later time at.checked asked jit later (Reaches-IsSound reaches))
              (hit ∙ (sym (ap (λ r. r.0) (resolve-hit key at jit v hit)) ∙ h)))
      ]

-- A call after a flush delivers what the store answers to it, errors included.
resolve-flush :
    (store : SecretsStore) (key : Text) (at : Instants) (jit : JitDelivery)
    → (resolve store key at (flush jit)).0 ≡ store at.answered key
unfolding flush cached_value get
resolve-flush store key at jit =
    ap (λ r. r.0) (resolve-miss store jit.ttl key at (flush jit) empty)
    ∙ fetch-value store jit.ttl key at (flush jit)
  where
    empty : cached_value (flush jit) key at.checked ≡ none
    empty = refl

-- A secret that a call has fetched is delivered for the time to live, whatever the store has become.
resolve-resolve :
    (store later_store : SecretsStore) (key value : Text) (at later : Instants) (jit : JitDelivery)
    → cached_value jit key at.checked ≡ none
    → store at.answered key ≡ some value
    → later.checked - at.kept < jit.ttl
    → resolve later_store key later (resolve store key at jit).1
      ≡ (some value, (resolve store key at jit).1)
unfolding fetch cached_value
resolve-resolve store later_store key value at later jit miss answer young =
    subst (λ j. resolve later_store key later j ≡ (some value, j)) (sym (ap (λ r. r.1) first_call))
      (resolve-hit later_store jit.ttl key later warm value hit)
  where
    warm : JitDelivery
    warm = record jit {
      cache = insert key (record { value = value; fetched_at = at.kept }) jit.cache;
    }

    first_call : resolve store key at jit ≡ (some value, warm)
    first_call = resolve-miss store jit.ttl key at jit miss ∙ rw (answer, fetch) refl

    hit : cached_value warm key later.checked ≡ some value
    hit =
        rw
          (
            get-insert key (record { value = value; fetched_at = at.kept }) jit.cache,
            cached_value,
            lt→ltb (later.checked - at.kept) jit.ttl young,
          )
          refl
