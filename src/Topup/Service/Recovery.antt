-- ===== src/Topup/Service/Recovery.antt =====
-- `recoverPayment` of apps/api/src/topup/service.ts: a payment is refunded or voided. What other calls do to the
-- recharges during the turns of its loop is a parameter.
use ticash.Prelude.{
  List, ok, ℕ, Bool, true, false, not, ◌&&◌, ◌||◌, Option, none, some, [], ◌∷◌, ◌==◌, leb,
  if◌then◌else◌,
}
use ticash.Prelude.Actions.{pure, throw, or_raise, raise_if, when, attempt, ◌>>=◌, ◌>>◌}
use ticash.Topup.Errors.{
  Outcome, fail_with, topup_not_found, store_unavailable, invalid_payment_response, type_error,
}
use ticash.Topup.Repository.Types.{
  TopUpStore, PaymentStatus, voided, void_pending, refund_pending, payment_refunded,
  PaymentProvider, mock, stripe, store_balance, Transaction, has_value,
}
use ticash.Topup.Repository.Claims.{
  claim_operation, recovery, is_authorized_or_captured, is_captured,
}
use ticash.Topup.Repository.Updates.{TransactionUpdate, keep, give, transition_payment}
use ticash.Topup.Service.Environment.{
  StripePayment, StripeStatus, canceled, succeeded, requires_capture, RefundStatus, is_refunded,
  VoidStatus, is_voided, StripeProvider, StoreBalancePayment, RechargeEnv, RechargeService, repo,
  get_transaction_by_id, ask, reads_payment, refunds, voids, write_audit, payment_voided,
  payment_reconciliation, payment_moved, assert_transaction_environment,
}

abbrev pub no_update : TransactionUpdate
no_update = record {
  status = keep;
  payment_status = keep;
  provider_transaction_id = keep;
  operator_transaction_id = keep;
  payment_authorization_id = keep;
  payment_provider = keep;
  payment_session_id = keep;
  payment_provider_transaction_id = keep;
  payment_recovery_code = keep;
  checkout_resume_token_hash = keep;
  failure_code = keep;
  receiver_value_confirmed = keep;
  delivered_value = keep;
  delivered_currency = keep;
  delivered_at = keep;
  failed_at = keep;
  refunded_at = keep;
  customer_hidden_at = keep;
}

-- The recovery codes, as numbers.
abbrev pub payment_recovery_required : ℕ
payment_recovery_required = 1

abbrev pub recovery_confirmed : ℕ
recovery_confirmed = 2

abbrev pub moved_to : PaymentStatus → ℕ → TransactionUpdate
moved_to status code = record no_update {
  payment_status = give status;
  payment_recovery_code = give (some code);
}

-- `paymentProviderTransactionId ?? paymentAuthorizationId`
abbrev pub payment_id_of : Transaction → Option ℕ
payment_id_of t =
    if has_value t.payment_provider_transaction_id
    then t.payment_provider_transaction_id
    else t.payment_authorization_id

abbrev pub is_amount : Option ℕ → ℕ → Bool
is_amount none n = false
is_amount (some m) n = m == n

-- `Number(value ?? 0) >= n`
abbrev pub is_at_least : Option ℕ → ℕ → Bool
is_at_least none n = leb n 0
is_at_least (some m) n = leb n m

abbrev pub is_canceled : StripeStatus → Bool
is_canceled canceled = true
is_canceled _ = false

abbrev pub is_succeeded : StripeStatus → Bool
is_succeeded succeeded = true
is_succeeded _ = false

abbrev pub is_requires_capture : StripeStatus → Bool
is_requires_capture requires_capture = true
is_requires_capture _ = false

abbrev pub matches_payment : ℕ → Transaction → StripePayment → Bool
matches_payment payment_id t p =
    is_amount p.id payment_id && p.is_usd && is_amount p.amount t.total_charge_minor

-- The end of a turn: the method returns, or the payment is to be moved, with a refund or not.
pub data Turn : Type 0 where
  returns : Option Transaction → Turn
  moves : Transaction → Bool → Turn

abbrev pub pending_of : Bool → PaymentStatus
pending_of true = refund_pending
pending_of false = void_pending

abbrev pub is_mock_provider : Option PaymentProvider → Bool
is_mock_provider (some mock) = true
is_mock_provider _ = false

module _ (env : RechargeEnv) (now id : ℕ) where
  abbrev pub stripe_answer : Transaction → StripePayment → RechargeService Turn
  stripe_answer t p =
      let is_paid = is_succeeded p.status || is_at_least p.amount_received t.total_charge_minor in
      let is_open =
        is_requires_capture p.status || is_at_least p.amount_capturable t.total_charge_minor in
      if is_canceled p.status
      then (do
        _ ←
            repo (
              transition_payment now id (t.payment_status ∷ [])
                (moved_to voided recovery_confirmed))
        write_audit env payment_voided id
        latest ← get_transaction_by_id id
        pure (returns latest))
      else if not is_paid && not is_open
      then write_audit env payment_reconciliation id >> pure (returns (some t))
      else pure (moves t is_paid)

  abbrev pub ask_stripe : Transaction → StripeProvider → ℕ → RechargeService Turn
  ask_stripe t p payment_id = do
    payment ← ask (reads_payment payment_id) (p.get_payment payment_id)
    raise_if (not (matches_payment payment_id t payment)) (fail_with invalid_payment_response 502)
    stripe_answer t payment

  abbrev pub stripe_turn : Transaction → StripeProvider → Option ℕ → RechargeService Turn
  stripe_turn t p none = pure (returns (some t))
  stripe_turn t p (some payment_id) =
      attempt (ask_stripe t p payment_id)
        (λ _. write_audit env payment_reconciliation id >> pure (returns (some t)))

  abbrev pub decide :
      Bool → Transaction → Option PaymentProvider → Option StripeProvider → RechargeService Turn
  decide reversed t (some stripe) (some p) = stripe_turn t p (payment_id_of t)
  decide reversed t provider p =
      pure (moves t (is_captured t.payment_status || reversed && is_mock_provider provider))

  -- The body of the loop.
  abbrev pub turn : Bool → RechargeService Turn
  turn reversed = do
    found ← get_transaction_by_id id
    t ← or_raise found (fail_with topup_not_found 404)
    assert_transaction_environment env t
    if is_authorized_or_captured t.payment_status
        then decide reversed t t.payment_provider env.stripe_provider
        else pure (returns (some t))

  abbrev pub call_refund :
      Transaction → Option (ℕ → ℕ → ℕ → Outcome RefundStatus) → Option ℕ → RechargeService Bool
  call_refund t (some refund) (some payment_id) = do
    status ← ask (refunds id) (refund payment_id id t.total_charge_minor)
    pure (elim status [ is_refunded ↦ true | _ ↦ false ])
  call_refund t refund payment_id = pure false

  abbrev pub call_void : Option (ℕ → ℕ → Outcome VoidStatus) → Option ℕ → RechargeService Bool
  call_void (some void) (some payment_id) = do
    status ← ask (voids id) (void payment_id id)
    pure (elim status [ is_voided ↦ true | _ ↦ false ])
  call_void void payment_id = pure false

  -- Whether the refund or the void is confirmed; without a recovery nothing is called.
  abbrev pub call_recovery :
      Transaction → Bool → Option PaymentProvider → Option StripeProvider → RechargeService Bool
  call_recovery t true (some mock) p = call_refund t env.payment_provider.refund (payment_id_of t)
  call_recovery t false (some mock) p = call_void env.payment_provider.void (payment_id_of t)
  call_recovery t true (some stripe) (some p) = call_refund t (some p.refund) (payment_id_of t)
  call_recovery t false (some stripe) (some p) = call_void (some p.void) (payment_id_of t)
  call_recovery t refund provider p = pure false

  abbrev pub final_of : Bool → PaymentStatus
  final_of true = payment_refunded
  final_of false = voided

  -- The `try` after the loop: whether it returns.
  abbrev pub recover_outside : Transaction → Bool → RechargeService Bool
  recover_outside t refund = do
    confirmed ← call_recovery t refund t.payment_provider env.stripe_provider
    if confirmed
        then (do
          moved ← repo (
              transition_payment now id (pending_of refund ∷ [])
                (moved_to (final_of refund) recovery_confirmed))
          when moved (write_audit env (payment_moved (final_of refund)) id)
          pure true)
        else pure false

  abbrev pub after_loop : Bool → Transaction → Bool → RechargeService (Option Transaction)
  after_loop external t refund = do
    assert_transaction_environment env t
    write_audit env (payment_moved (pending_of refund)) id
    if external
        then (do
          returned ← attempt (recover_outside t refund) (λ _. pure false)
          when (not returned) (write_audit env payment_reconciliation id)
          get_transaction_by_id id)
        else get_transaction_by_id id

  -- The test of the loop; `again` is another turn.
  abbrev pub finish_turn :
      RechargeService (Option Transaction) → Bool → Turn → RechargeService (Option Transaction)
  finish_turn again external (returns t) = pure t
  finish_turn again external (moves t refund) = do
    moved ← repo (
        transition_payment now id (t.payment_status ∷ [])
          (moved_to (pending_of refund) payment_recovery_required))
    if moved then after_loop external t refund else again

  -- What other calls, such as a webhook's, do to the store between the read and the compare-and-set of a
  -- turn.
  abbrev pub interfere : (TopUpStore → TopUpStore) → RechargeService (Unit {0})
  interfere change s = (ok tt, record s { store = change s.store })

  -- The loop, where other calls change the store in as many turns as the list says and then no more;
  -- `again` is what follows if even the turn after these does not end the loop.
  abbrev pub loop :
      RechargeService (Option Transaction)
      → List (TopUpStore → TopUpStore)
      → Bool
      → Bool
      → RechargeService (Option Transaction)
  loop again [] reversed external = turn reversed >>= finish_turn again external
  loop again (change ∷ changes) reversed external = do
    t ← turn reversed
    interfere change
    finish_turn (loop again changes reversed external) external t

  abbrev pub recover_store :
      Transaction → Option StoreBalancePayment → RechargeService (Option Transaction)
  recover_store t none = throw (fail_with store_unavailable 503)
  recover_store t (some b) = b.refund t >> get_transaction_by_id id

  abbrev pub recover_claimed : Bool → Bool → RechargeService (Option Transaction)
  recover_claimed reversed external = do
    mine ← repo (claim_operation now id recovery now)
    if mine
        then loop (throw (fail_with type_error 500)) env.meanwhile reversed external
        else get_transaction_by_id id

  abbrev pub recover_by :
      Bool → Bool → Transaction → Option PaymentProvider → RechargeService (Option Transaction)
  recover_by reversed external t (some store_balance) = recover_store t env.store_balance
  recover_by reversed external t provider = recover_claimed reversed external

  unfoldable pub recover_payment : Bool → Bool → RechargeService (Option Transaction)
  recover_payment reversed external = do
    found ← get_transaction_by_id id
    t ← or_raise found (fail_with topup_not_found 404)
    assert_transaction_environment env t
    recover_by reversed external t t.payment_provider
