-- ===== src/Marketing/Rewards.antt =====
-- The life of a promoter's reward (`rewardTransition` of apps/api/src/flupflap/marketing-policy.ts).
use ticash.Prelude.{ℕ, ◌≡◌, ◌≢◌, refl, arith, true, Option, none, some, List, [], ◌∷◌, ok, err}
use ticash.Marketing.Policy.{
  RewardStatus, reward_pending, approved, payable, paid, reversed, reward_transition, may_follow,
}

-- The transitions of one reward, each with the length of its reason, while they are accepted.
abbrev pub follow : RewardStatus → List (RewardStatus × ℕ) → Option RewardStatus
follow from [] = some from
follow from ((to, n) ∷ rest) =
    let after = follow to rest in elim (reward_transition from to n) [ ok _ ↦ after | err _ ↦ none ]

-- The statuses that a list of transitions names.
abbrev pub statuses : List (RewardStatus × ℕ) → List RewardStatus
statuses [] = []
statuses ((to, _) ∷ rest) = to ∷ statuses rest

transition-ok :
    (from to : RewardStatus) (n : ℕ) (rest : Option RewardStatus) {r : RewardStatus}
    → elim (reward_transition from to n) as (λ _. Option RewardStatus) [
      | ok _ ↦ rest
      | err _ ↦ none
    ]
      ≡ some r
    → (may_follow from to ≡ true) × (rest ≡ some r)
unfolding reward_transition
transition-ok from to n rest h = ground arith

reversed_stays : (path : List (RewardStatus × ℕ)) → follow reversed path ≢ some paid
reversed_stays [] h = cc
reversed_stays ((to, n) ∷ rest) h =
    let (e, _) = transition-ok reversed to n (follow to rest) h in ground arith

paid_stays : (path : List (RewardStatus × ℕ)) → follow paid path ≡ some paid → statuses path ≡ []
paid_stays [] h = refl
paid_stays ((to, n) ∷ rest) h = absurd (go to (transition-ok paid to n (follow to rest) h))
  where
    go : (to : RewardStatus) → (may_follow paid to ≡ true) × (follow to rest ≡ some paid) → ⊥
    go reversed k = reversed_stays rest k.1
    go reward_pending k = cc k.0
    go approved k = cc k.0
    go payable k = cc k.0
    go paid k = cc k.0

payable_path :
    (path : List (RewardStatus × ℕ)) → follow payable path ≡ some paid → statuses path ≡ paid ∷ []
payable_path [] h = absurd (cc)
payable_path ((to, n) ∷ rest) h = go to (transition-ok payable to n (follow to rest) h)
  where
    go :
        (to : RewardStatus)
        → (may_follow payable to ≡ true) × (follow to rest ≡ some paid)
        → to ∷ statuses rest ≡ paid ∷ []
    go paid k = rw (paid_stays rest k.1) refl
    go reversed k = absurd (reversed_stays rest k.1)
    go reward_pending k = absurd (cc k.0)
    go approved k = absurd (cc k.0)
    go payable k = absurd (cc k.0)

approved_path :
    (path : List (RewardStatus × ℕ))
    → follow approved path ≡ some paid
    → statuses path ≡ payable ∷ paid ∷ []
approved_path [] h = absurd (cc)
approved_path ((to, n) ∷ rest) h = go to (transition-ok approved to n (follow to rest) h)
  where
    go :
        (to : RewardStatus)
        → (may_follow approved to ≡ true) × (follow to rest ≡ some paid)
        → to ∷ statuses rest ≡ payable ∷ paid ∷ []
    go payable k = rw (payable_path rest k.1) refl
    go reversed k = absurd (reversed_stays rest k.1)
    go reward_pending k = absurd (cc k.0)
    go approved k = absurd (cc k.0)
    go paid k = absurd (cc k.0)

-- A pending reward is paid by one list of statuses only: approved, payable, paid.
pub paid_path :
    (path : List (RewardStatus × ℕ))
    → follow reward_pending path ≡ some paid
    → statuses path ≡ approved ∷ payable ∷ paid ∷ []
paid_path [] h = absurd (cc)
paid_path ((to, n) ∷ rest) h = go to (transition-ok reward_pending to n (follow to rest) h)
  where
    go :
        (to : RewardStatus)
        → (may_follow reward_pending to ≡ true) × (follow to rest ≡ some paid)
        → to ∷ statuses rest ≡ approved ∷ payable ∷ paid ∷ []
    go approved k = rw (approved_path rest k.1) refl
    go reversed k = absurd (reversed_stays rest k.1)
    go reward_pending k = absurd (cc k.0)
    go payable k = absurd (cc k.0)
    go paid k = absurd (cc k.0)
