-- ===== src/Topup/Repository/Tests.antt =====
-- Recharges of the tests (apps/api/src/topup/repository.ts).
use ticash.Prelude.{◌≡◌, refl, true, false, none, some, [], ◌∷◌, ok, err}
use ticash.Topup.Errors.{fail_with, topup_quote_already_used}
use ticash.Topup.Repository.Types.{
  Transaction, pending, captured, stripe, fraud_review_required, TopUpStore,
}
use ticash.Topup.Repository.Claims.{fulfillment, claim_operation, claim_security_refund}
use ticash.Topup.Repository.Quotes.{reserve_transaction}
use ticash.Topup.Repository.Exclusion.{
  fulfil, security_refund, finish, one_ending, claim_operation_once,
}
use ticash.Topup.Repository.Submissions.{reserve_transaction_again, reserve_transaction_same_quote}

abbrev pub paid_recharge : Transaction
paid_recharge = record {
  id = 1;
  user_id = 7;
  is_flupflap = true;
  quote_id = 3;
  idempotency_key = 11;
  status = pending;
  payment_status = captured;
  payment_provider = some stripe;
  payment_environment = 0;
  recharge_environment = 0;
  test_mode = false;
  payment_session_id = some 20;
  payment_authorization_id = none;
  payment_provider_transaction_id = some 21;
  provider_transaction_id = none;
  operator_transaction_id = none;
  payment_started_at = some 1000;
  fulfillment_started_at = none;
  recovery_started_at = none;
  payment_recovery_code = none;
  failure_code = none;
  created_at = 900;
  updated_at = 1100;
  delivered_at = none;
  failed_at = none;
  customer_hidden_at = none;
  refunded_at = none;
  checkout_resume_token_hash = none;
  recipient_phone = 31;
  country_code = "HT";
  receiver_language = none;
  receiver_value_confirmed = false;
  delivered_value = none;
  delivered_currency = "HTG";
  recipient_id = some 4;
  product_id = 60;
  product_name = 61;
  total_charge_minor = 1170;
}

abbrev reviewed_recharge : Transaction
reviewed_recharge = record paid_recharge { failure_code = some fraud_review_required }

abbrev pub empty_store : TopUpStore
empty_store = record {
  quotes = [];
  transactions = [];
  notifications = [];
  recipients = [];
  ledger_references = [];
  payment_events = [];
}

abbrev reviewed_store : TopUpStore
reviewed_store = record empty_store { transactions = (1, reviewed_recharge) ∷ [] }

abbrev refunded_store : TopUpStore
refunded_store = (claim_security_refund 1200 reviewed_recharge 5 1199 reviewed_store).1

one_ending_example :
    finish fulfil paid_recharge 0 1300 1301 refunded_store ≡ (ok false, refunded_store)
unfolding claim_security_refund
one_ending_example =
    one_ending security_refund fulfil reviewed_recharge paid_recharge 5 0 1199 1300 1200 1301
      reviewed_store refunded_store refl refl

abbrev paid_store : TopUpStore
paid_store = record empty_store { transactions = (1, paid_recharge) ∷ [] }

abbrev started_store : TopUpStore
started_store = (claim_operation 1200 1 fulfillment 1199 paid_store).1

claim_operation_once_example :
    claim_operation 1300 1 fulfillment 1299 started_store ≡ (ok false, started_store)
unfolding claim_operation
claim_operation_once_example =
    claim_operation_once fulfillment 1 1199 1299 1200 1300 paid_store started_store refl

abbrev quoted_store : TopUpStore
quoted_store = record empty_store {
  quotes = (3, record { id = 3; user_id = 7; expires_at = 2000; consumed_at = none }) ∷ [];
}

abbrev submitted_store : TopUpStore
submitted_store = (reserve_transaction paid_recharge quoted_store).1

reserve_transaction_again_example :
    reserve_transaction (record paid_recharge { id = 2 }) submitted_store
    ≡ (ok (record { transaction = paid_recharge; created = false }), submitted_store)
unfolding reserve_transaction
reserve_transaction_again_example =
    reserve_transaction_again paid_recharge (record paid_recharge { id = 2 }) quoted_store
      submitted_store (record { transaction = paid_recharge; created = true }) refl refl refl refl

reserve_transaction_same_quote_example :
    (reserve_transaction (record paid_recharge { id = 2; idempotency_key = 12 }) submitted_store).1
    ≡ submitted_store
unfolding reserve_transaction
reserve_transaction_same_quote_example =
    reserve_transaction_same_quote paid_recharge
      (record paid_recharge { id = 2; idempotency_key = 12 }) quoted_store submitted_store
      (record { transaction = paid_recharge; created = true }) refl refl refl

other_key_refused :
    (reserve_transaction (record paid_recharge { id = 2; idempotency_key = 12 }) submitted_store).0
    ≡ err (fail_with topup_quote_already_used 409)
unfolding reserve_transaction
other_key_refused = refl
