-- ===== src/Topup/Service/Tests.antt =====
-- Runs of `MobileTopUpService` (apps/api/src/topup/service.ts).
use ticash.Prelude.{Option, ◌≡◌, ◌≤◌, refl, true, false, some, none, [], ◌∷◌, ok, err}
use ticash.Topup.Errors.{fail_with, type_error}
use ticash.Topup.Evidence.{PaymentEvidence, highest, automatic_security_refund_reason}
use ticash.Topup.Repository.Types.{
  TopUpStore, Transaction, authorized, captured, refund_pending, payment_refunded,
}
use ticash.Topup.Repository.Tests.{paid_recharge, empty_store}
use ticash.Topup.Repository.Claims.{claim_operation, claim_security_refund}
use ticash.Topup.Repository.Updates.{update_transaction, notification_for, transition_payment, give}
use ticash.Topup.Service.SecurityRefunds.{refund_confirmed_security_failure}
use ticash.Topup.Service.Fulfillment.{fulfill_paid_recharge}
use ticash.Topup.Service.Environment.{
  StripePayment, succeeded, is_refunded, is_voided, StripeProvider, RechargeEnv, RechargeState,
  RechargeService, audits, payment_moved, refunds, reads_payment,
}
use ticash.Topup.Service.Recovery.{loop, no_update}
use ticash.Prelude.Actions.{pure, throw}
use ticash.Topup.Service.Frames.{IsQuiet, endings}
use ticash.Topup.Service.Sessions.{
  fulfill_call, recover_call, perform, opened, called, endings-le-one,
}
use ticash.Topup.Service.Loops.{loop_ends}

-- A recharge of the sandbox that a customer paid for by card.
abbrev card_recharge : Transaction
card_recharge = record paid_recharge { test_mode = true }

abbrev start_state : RechargeState
start_state = record {
  store = record empty_store { transactions = (1, card_recharge) ∷ [] };
  calls = [];
}

abbrev evidence : PaymentEvidence
evidence = record {
  fingerprint = some 9;
  risk = highest;
  authentication = none;
  card_network = none;
  response_eci = none;
  postal_code_check = none;
  cvc_check = none;
  street_check = none;
  is_card = true;
  review = false;
  disputed = false;
  refunded = false;
}

abbrev card_payment : StripePayment
card_payment = record {
  id = some 21;
  status = succeeded;
  livemode = some false;
  is_usd = true;
  amount = some 1170;
  amount_received = some 1170;
  amount_capturable = none;
  transaction_id = some 1;
}

abbrev stripe_of_tests : StripeProvider
stripe_of_tests = record {
  fraud_evidence = λ _ _. ok evidence;
  get_payment = λ _. ok card_payment;
  refund = λ _ _ _. ok is_refunded;
  void = λ _ _. ok is_voided;
}

-- The provider does not answer.
abbrev silent_env : RechargeEnv
silent_env = record {
  enabled = true;
  environment = 0;
  automatic_security_refunds = true;
  submit_top_up = λ _. err (fail_with type_error 504);
  revalidate_quote_product = λ _. ok tt;
  payment_provider = record { refund = none; void = none };
  stripe_provider = some stripe_of_tests;
  store_balance = none;
  sender_receipt_email = none;
  fraud_gate = some (λ _. ok none);
  approve_fraud_review = none;
  audit = λ _ _. ok tt;
  meanwhile = [];
}

-- The fraud gate holds every recharge.
abbrev held_env : RechargeEnv
held_env = record silent_env { fraud_gate = some (λ _. ok (some 6)) }

quiet : (env : RechargeEnv) → env.store_balance ≡ none → env.meanwhile ≡ [] → IsQuiet env
quiet env e nothing = record {
  delivered_endings = λ b i t s h. absurd (cc);
  delivered_begun = λ b i t s h. absurd (cc);
  refund_endings = λ b i t s h. absurd (cc);
  refund_begun = λ b i t s h. absurd (cc);
  meanwhile_begun = rw nothing tt;
}

abbrev refunded_state : RechargeState
refunded_state = perform held_env (fulfill_call 2000 1) start_state

abbrev ordered_state : RechargeState
ordered_state = perform silent_env (fulfill_call 2000 1) start_state

was_refunded : endings 1 refunded_state.calls ≡ 1
unfolding fulfill_paid_recharge refund_confirmed_security_failure claim_security_refund
    update_transaction notification_for transition_payment automatic_security_refund_reason
was_refunded = refl

was_ordered : endings 1 ordered_state.calls ≡ 1
unfolding fulfill_paid_recharge claim_operation update_transaction notification_for
was_ordered = refl

abbrev end_state : RechargeState
end_state =
    perform silent_env (recover_call 4000 1 false true)
      (perform held_env (fulfill_call 3000 1) ordered_state)

endings-le-one_example : endings 1 end_state.calls ≤ 1
endings-le-one_example = endings-le-one 1 {s = start_state} {t = end_state} refl (
    called
      (called (called opened silent_env (fulfill_call 2000 1) (quiet silent_env refl refl) refl)
        held_env (fulfill_call 3000 1) (quiet held_env refl refl) refl)
      silent_env (recover_call 4000 1 false true) (quiet silent_env refl refl) refl)

-- A webhook reports the payment as captured while the loop looks at the authorized one.
abbrev authorized_state : RechargeState
authorized_state = record {
  store = record empty_store {
    transactions = (1, record card_recharge { payment_status = authorized }) ∷ [];
  };
  calls = [];
}

abbrev webhook_captures : TopUpStore → TopUpStore
webhook_captures s =
    (transition_payment 2500 1 (authorized ∷ [])
      (record no_update { payment_status = give captured }) s).1

abbrev stopped : RechargeService (Option Transaction)
stopped = throw (fail_with type_error 500)

was_repeated :
    (loop silent_env 2600 1 stopped (webhook_captures ∷ []) false true authorized_state).1.calls
    ≡ audits (payment_moved payment_refunded) 1
      ∷ refunds 1
      ∷ audits (payment_moved refund_pending) 1
      ∷ reads_payment 21
      ∷ reads_payment 21
      ∷ []
unfolding transition_payment
was_repeated = refl

loop_ends_example :
    loop silent_env 2600 1 stopped (webhook_captures ∷ []) false true authorized_state
    ≡ loop silent_env 2600 1 (pure none) (webhook_captures ∷ []) false true authorized_state
loop_ends_example =
    loop_ends silent_env 2600 1 stopped (pure none) (webhook_captures ∷ []) false true
      authorized_state
