-- ===== src/Profile/Context/Winner.antt =====
-- The profile that a signal selects.
use open_sesame.Prelude.{
  ℕ, ◌≡◌, ◌≤◌, ◌<◌, refl, sym, ◌∙◌, ap, subst, inl, inr, true, false, Bool-cases, Option,
  Option-cases, none, some, List, [], ◌∷◌, ◌++◌, arith, leb, leb→le, retain, first, All, All-map,
  All-append, if◌then◌else◌,
}
use open_sesame.Profile.Context.{
  ContextSignal, ProfileActivation, matches_profile, insert_by_priority, sort_by_priority, winner,
}

-- The profile stands in the list; those before it that match have a lower priority, and those
-- behind it that match no higher one.
record IsWinner (signal : ContextSignal) (profiles : List ProfileActivation) (p : ProfileActivation)
    : Type 0 where
  pub before : List ProfileActivation
  pub behind : List ProfileActivation
  pub place : profiles ≡ before ++ p ∷ behind
  pub matches : matches_profile signal p ≡ true
  pub lower : All (λ q. matches_profile signal q ≡ true → q.priority < p.priority) before
  pub no_higher : All (λ q. matches_profile signal q ≡ true → q.priority ≤ p.priority) behind

-- The greatest of a list, the first of those that are equal.
greatest : List ProfileActivation → Option ProfileActivation
greatest [] = none
greatest (p ∷ ps) = elim (greatest ps) [
  | none ↦ some p
  | some q ↦ if leb q.priority p.priority then some p else some q
]

first-insert_by_priority :
    (p : ProfileActivation) (qs : List ProfileActivation)
    → first (insert_by_priority p qs) ≡ elim (first qs) as (λ o. Option ProfileActivation) [
      | none ↦ some p
      | some q ↦ if leb q.priority p.priority then some p else some q
    ]
unfolding insert_by_priority
first-insert_by_priority p [] = refl
first-insert_by_priority p (q ∷ qs) = elim (Bool-cases (leb q.priority p.priority)) [
  | inl higher ↦ rw (higher, insert_by_priority) refl
  | inr lower ↦ rw (lower, insert_by_priority) refl
]

first-sort_by_priority : (ps : List ProfileActivation) → first (sort_by_priority ps) ≡ greatest ps
unfolding sort_by_priority greatest
first-sort_by_priority [] = refl
first-sort_by_priority (p ∷ ps) =
    first-insert_by_priority p (sort_by_priority ps) ∙ rw (first-sort_by_priority ps) refl

module _ (signal : ContextSignal) where
  Matches : ProfileActivation → Type 0
  Matches q = matches_profile signal q ≡ true

  none-ne : (p : ProfileActivation) → none ≡ some p → ⊥
  none-ne p d = cc

  some-inj : (p q : ProfileActivation) → some p ≡ some q → p ≡ q
  some-inj p q d = cc

  false-ne : false ≡ true → ⊥
  false-ne d = cc

  -- The greatest of a list with another profile in front.
  greatest-none :
      (p : ProfileActivation) (ps : List ProfileActivation)
      → greatest ps ≡ none
      → greatest (p ∷ ps) ≡ some p
  unfolding greatest
  greatest-none p ps e = rw e refl

  greatest-front :
      (p q : ProfileActivation) (ps : List ProfileActivation)
      → greatest ps ≡ some q
      → leb q.priority p.priority ≡ true
      → greatest (p ∷ ps) ≡ some p
  unfolding greatest
  greatest-front p q ps e h = rw (e, h) refl

  greatest-behind :
      (p q : ProfileActivation) (ps : List ProfileActivation)
      → greatest ps ≡ some q
      → leb q.priority p.priority ≡ false
      → greatest (p ∷ ps) ≡ some q
  unfolding greatest
  greatest-behind p q ps e h = rw (e, h) refl

  retain-match :
      (p : ProfileActivation) (ps : List ProfileActivation)
      → matches_profile signal p ≡ true
      → retain (matches_profile signal) (p ∷ ps) ≡ p ∷ retain (matches_profile signal) ps
  retain-match p ps h = rw (h, retain) refl

  retain-other :
      (p : ProfileActivation) (ps : List ProfileActivation)
      → matches_profile signal p ≡ false
      → retain (matches_profile signal) (p ∷ ps) ≡ retain (matches_profile signal) ps
  retain-other p ps h = rw (h, retain) refl

  greatest-cons-ne :
      (p : ProfileActivation) (ps : List ProfileActivation) → greatest (p ∷ ps) ≡ none → ⊥
  greatest-cons-ne p ps h = elim (Option-cases (greatest ps)) [
    | inl nothing ↦ none-ne p (sym h ∙ greatest-none p ps nothing)
    | inr (q, e) ↦ elim (Bool-cases (leb q.priority p.priority)) [
      | inl front ↦ none-ne p (sym h ∙ greatest-front p q ps e front)
      | inr behind ↦ none-ne q (sym h ∙ greatest-behind p q ps e behind)
    ]
  ]

  unmatched :
      (ps : List ProfileActivation)
      → greatest (retain (matches_profile signal) ps) ≡ none
      → All (λ q. matches_profile signal q ≡ false) ps
  unmatched [] h = tt
  unmatched (p ∷ ps) h = elim (Bool-cases (matches_profile signal p)) [
    | inl match ↦ absurd (
        greatest-cons-ne p (retain (matches_profile signal) ps)
          (sym (ap greatest (retain-match p ps match)) ∙ h))
    | inr other ↦ (other, unmatched ps (sym (ap greatest (retain-other p ps other)) ∙ h))
  ]

  -- No profile that matches has a higher priority than the winner.
  bounded :
      (ps : List ProfileActivation) (w : ProfileActivation) (n : ℕ)
      → IsWinner signal ps w
      → w.priority ≤ n
      → All (λ q. matches_profile signal q ≡ true → q.priority ≤ n) ps
  bounded ps w n i le =
      subst (All (λ q. matches_profile signal q ≡ true → q.priority ≤ n)) (sym i.place) (
        All-append (λ q. matches_profile signal q ≡ true → q.priority ≤ n) i.before (w ∷ i.behind)
          (All-map (λ q. matches_profile signal q ≡ true → q.priority < w.priority)
            (λ q. matches_profile signal q ≡ true → q.priority ≤ n) i.before
            (λ q f m. omega (arith, f m, le)) i.lower)
          (
            λ m. le,
            All-map (λ q. matches_profile signal q ≡ true → q.priority ≤ w.priority)
                (λ q. matches_profile signal q ≡ true → q.priority ≤ n) i.behind
                (λ q f m. omega (arith, f m, le)) i.no_higher,
          ))

  greatest-IsWinner :
      (ps : List ProfileActivation) (p : ProfileActivation)
      → greatest (retain (matches_profile signal) ps) ≡ some p
      → IsWinner signal ps p
  unfolding greatest
  greatest-IsWinner [] p h = absurd (none-ne p h)
  greatest-IsWinner (q ∷ ps) p h = elim (Bool-cases (matches_profile signal q)) [
    | inl match ↦
        matched (λ w e. greatest-IsWinner ps w e) match
          (sym (ap greatest (retain-match q ps match)) ∙ h)
    | inr other ↦
        further (λ m. absurd (false-ne (sym other ∙ m)))
          (greatest-IsWinner ps p (sym (ap greatest (retain-other q ps other)) ∙ h))
  ]
    where
      further :
          (matches_profile signal q ≡ true → q.priority < p.priority)
          → IsWinner signal ps p
          → IsWinner signal (q ∷ ps) p
      further low i = record {
        before = q ∷ i.before;
        behind = i.behind;
        place = ap (λ l. q ∷ l) i.place;
        matches = i.matches;
        lower = (low, i.lower);
        no_higher = i.no_higher;
      }

      in_front :
          matches_profile signal q ≡ true
          → q ≡ p
          → All (λ r. matches_profile signal r ≡ true → r.priority ≤ q.priority) ps
          → IsWinner signal (q ∷ ps) p
      in_front match same high = subst (IsWinner signal (q ∷ ps)) same (record {
        before = [];
        behind = ps;
        place = refl;
        matches = match;
        lower = tt;
        no_higher = high;
      })

      matched :
          ((w : ProfileActivation)
            → greatest (retain (matches_profile signal) ps) ≡ some w
            → IsWinner signal ps w)
          → matches_profile signal q ≡ true
          → greatest (q ∷ retain (matches_profile signal) ps) ≡ some p
          → IsWinner signal (q ∷ ps) p
      matched ih match g = elim (Option-cases (greatest (retain (matches_profile signal) ps))) [
        | inl nothing ↦
            in_front match
              (some-inj q p
                (sym (greatest-none q (retain (matches_profile signal) ps) nothing) ∙ g))
              (All-map (λ r. matches_profile signal r ≡ false)
                (λ r. matches_profile signal r ≡ true → r.priority ≤ q.priority) ps
                (λ r f m. absurd (false-ne (sym f ∙ m))) (unmatched ps nothing))
        | inr (w, e) ↦ elim (Bool-cases (leb w.priority q.priority)) [
          | inl front ↦
              in_front match
                (some-inj q p
                  (sym (greatest-front q w (retain (matches_profile signal) ps) e front) ∙ g))
                (bounded ps w q.priority (ih w e) (leb→le w.priority q.priority front))
          | inr behind ↦
              let same : w ≡ p =
                some-inj w p
                  (sym (greatest-behind q w (retain (matches_profile signal) ps) e behind) ∙ g) in
              further (λ m. subst (λ x. q.priority < x.priority) same (ground (arith, behind)))
                (subst (IsWinner signal ps) same (ih w e))
        ]
      ]

-- The winner of a signal is the profile of highest priority whose rules match, the first of them
-- if there are several; without a winner no profile's rules match.
winner-IsWinner :
    (signal : ContextSignal) (profiles : List ProfileActivation)
    → ((p : ProfileActivation) → winner profiles signal ≡ some p → IsWinner signal profiles p)
      × (winner profiles signal ≡ none → All (λ q. matches_profile signal q ≡ false) profiles)
unfolding winner
winner-IsWinner signal profiles = (
  λ p h.
      greatest-IsWinner signal profiles p
        (sym (first-sort_by_priority (retain (matches_profile signal) profiles)) ∙ h),
  λ h.
      unmatched signal profiles
        (sym (first-sort_by_priority (retain (matches_profile signal) profiles)) ∙ h),
)
