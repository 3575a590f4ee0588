-- ===== src/Topup/Service/Loops.antt =====
-- The loop of `recoverPayment` (apps/api/src/topup/service.ts).
use ticash.Prelude.{
  ap, List, ℕ, ◌≡◌, refl, arith, inl, inr, Bool, true, Option, none, some, [], ◌∷◌, ok, err, Result,
  Result-cases, Option-cases, Bool-cases,
}
use ticash.Prelude.Maps.{get}
use ticash.Prelude.Actions.{after, rescue, pure, ◌>>◌, ◌>>=◌}
use ticash.Topup.Errors.{MobileTopUpError}
use ticash.Topup.Repository.Types.{
  PaymentProvider, mock, stripe, dwolla, store_balance, PaymentStatus, Transaction, TopUpStore,
}
use ticash.Topup.Repository.Claims.{is_authorized_or_captured}
use ticash.Topup.Repository.Updates.{is_from, transition_payment}
use ticash.Topup.Service.Environment.{
  RechargeEnv, RechargeState, RechargeService, StripeProvider, StripePayment, is_other_environment,
  reads_payment, payment_reconciliation, write_audit,
}
use ticash.Topup.Service.Recovery.{
  turn, payment_id_of, matches_payment, Turn, returns, moves, stripe_answer, ask_stripe, decide,
  finish_turn, interfere, loop,
}

is_from_self : (p : PaymentStatus) → is_from (p ∷ []) p ≡ true
is_from_self p = ground arith

-- A payment that is to be moved is the recorded one, and nothing was written.
abbrev Unmoved : Transaction → TopUpStore → Result MobileTopUpError Turn × RechargeState → Type 0
Unmoved t s (ok (moves u b), s') = (u ≡ t) × (s'.store ≡ s)
Unmoved t s (ok (returns u), s') = Unit
Unmoved t s (err e, s') = Unit

module _ (env : RechargeEnv) (now id : ℕ) where
  stripe_answer-Unmoved :
      (t : Transaction) (p : StripePayment) (s : RechargeState)
      → Unmoved t s.store (stripe_answer env now id t p s)
  stripe_answer-Unmoved t p s = ground arith

  caught-Unmoved :
      (t : Transaction) (s : TopUpStore) (x : Result MobileTopUpError Turn × RechargeState)
      → Unmoved t s x
      → Unmoved t s
          (rescue x (λ _. write_audit env payment_reconciliation id >> pure (returns (some t))))
  caught-Unmoved t s (ok a, s') h = h
  caught-Unmoved t s (err e, s') h = ground arith

  ask_stripe-Unmoved :
      (t : Transaction) (p : StripeProvider) (i : ℕ) (s : RechargeState)
      → Unmoved t s.store (ask_stripe env now id t p i s)
  ask_stripe-Unmoved t p i s = elim (Result-cases (p.get_payment i)) [
    | inr (e, failed) ↦ rw failed tt
    | inl (x, answered) ↦ elim (Bool-cases (matches_payment i t x)) [
      | inl m ↦
          rw (answered, m)
            (stripe_answer-Unmoved t x (record s { calls = reads_payment i ∷ s.calls }))
      | inr m ↦ rw (answered, m) tt
    ]
  ]

  decide-Unmoved :
      (b : Bool) (t : Transaction) (x : Option PaymentProvider) (p : Option StripeProvider)
      (s : RechargeState)
      → Unmoved t s.store (decide env now id b t x p s)
  decide-Unmoved b t (some stripe) (some p) s = elim (Option-cases (payment_id_of t)) [
    | inl missing ↦ rw missing tt
    | inr (i, found) ↦ rw found (caught-Unmoved t s.store _ (ask_stripe-Unmoved t p i s))
  ]
  decide-Unmoved b t (some stripe) none s = (refl, refl)
  decide-Unmoved b t (some mock) p s = (refl, refl)
  decide-Unmoved b t (some dwolla) p s = (refl, refl)
  decide-Unmoved b t (some store_balance) p s = (refl, refl)
  decide-Unmoved b t none p s = (refl, refl)

  -- Where nothing interferes the compare-and-set succeeds, so that there is no other turn.
  finish-once :
      (again other : RechargeService (Option Transaction)) (external : Bool) (t : Transaction)
      (s : TopUpStore) (x : Result MobileTopUpError Turn × RechargeState)
      → get id s.transactions ≡ some t
      → Unmoved t s x
      → after x (finish_turn env now id again external)
        ≡ after x (finish_turn env now id other external)
  unfolding transition_payment
  finish-once again other external t s (err e, s') g u = refl
  finish-once again other external t s (ok (returns v), s') g u = refl
  finish-once again other external t s (ok (moves v b), s') g (e, f) =
      let there : get id s'.store.transactions ≡ some v = (rw (f, e) g) in
      rw (there, is_from_self v.payment_status) refl

  -- Whatever other calls change during the turns of the loop, and however often it is repeated for that,
  -- it ends: in the turn after these changes it returns or throws, so that what would follow that turn
  -- makes no difference.
  pub loop_ends :
      (again other : RechargeService (Option Transaction))
      (changes : List (TopUpStore → TopUpStore)) (reversed external : Bool) (s : RechargeState)
      → loop env now id again changes reversed external s
        ≡ loop env now id other changes reversed external s
  loop_ends again other [] reversed external s = elim (Option-cases (get id s.store.transactions)) [
    | inl missing ↦ rw missing refl
    | inr (t, found) ↦ elim (Bool-cases (is_other_environment env t)) [
      | inl foreign ↦ rw (found, foreign) refl
      | inr same ↦ elim (Bool-cases (is_authorized_or_captured t.payment_status)) [
        | inr over ↦ rw (found, same, over) refl
        | inl open_ ↦
            rw (found, same, open_)
              (finish-once again other external t s.store _ found
                (decide-Unmoved reversed t t.payment_provider env.stripe_provider s))
      ]
    ]
  ]
  loop_ends again other (c ∷ cs) reversed external s =
      let same : loop env now id again cs reversed external
          ≡ loop env now id other cs reversed external =
        (λ i s'. loop_ends again other cs reversed external s' i) in
      ap
        (λ next.
          (turn env now id reversed >>= λ t.
          interfere env now id c >> finish_turn env now id next external t)
            s)
        same
