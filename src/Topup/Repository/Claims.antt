-- ===== src/Topup/Repository/Claims.antt =====
-- `claimOperation`, `claimSecurityRefund`, `cancelPendingByAdmin` and `hideTransactionFromCustomer` of
-- apps/api/src/topup/repository.ts: a claim reads the record, and writes it if it may be claimed. `now`
-- is the clock of the write.
use ticash.Prelude.{
  ℕ, Bool, true, false, not, ◌&&◌, ◌||◌, Option, none, some, ◌==◌, if◌then◌else◌, ok,
}
use ticash.Prelude.Maps.{get, put}
use ticash.Topup.Repository.Types.{
  Status, pending, delivered, failed, refunded, PaymentStatus, payment_pending, session_created,
  authorized, captured, payment_failed, refund_pending, PaymentProvider, mock, stripe,
  store_balance, FailureCode, fraud_review_required, security_refund_required, cancelled_by_admin,
  Transaction, Method, has_value,
}

pub data Operation : Type 0 where
  payment fulfillment recovery : Operation

-- `record[operationField(operation)]`
abbrev pub started_at : Operation → Transaction → Option ℕ
started_at payment t = t.payment_started_at
started_at fulfillment t = t.fulfillment_started_at
started_at recovery t = t.recovery_started_at

abbrev pub start : Operation → ℕ → Transaction → Transaction
start payment when t = record t { payment_started_at = some when }
start fulfillment when t = record t { fulfillment_started_at = some when }
start recovery when t = record t { recovery_started_at = some when }

abbrev pub is_pending : Status → Bool
is_pending pending = true
is_pending _ = false

abbrev pub is_finished : Status → Bool
is_finished delivered = true
is_finished failed = true
is_finished refunded = true
is_finished _ = false

abbrev pub is_authorized_or_captured : PaymentStatus → Bool
is_authorized_or_captured authorized = true
is_authorized_or_captured captured = true
is_authorized_or_captured _ = false

abbrev pub is_captured : PaymentStatus → Bool
is_captured captured = true
is_captured _ = false

abbrev pub is_session_created : PaymentStatus → Bool
is_session_created session_created = true
is_session_created _ = false

abbrev pub is_fraud_review : Option FailureCode → Bool
is_fraud_review (some fraud_review_required) = true
is_fraud_review _ = false

abbrev pub is_stripe : Option PaymentProvider → Bool
is_stripe (some stripe) = true
is_stripe _ = false

-- `mockAllowed` and `stripeAllowed` of a payment.
abbrev pub may_pay : Option PaymentProvider → PaymentStatus → Bool
may_pay (some mock) payment_pending = true
may_pay (some mock) session_created = true
may_pay (some stripe) payment_pending = true
may_pay _ _ = false

-- `paid(record)`
abbrev pub paid : Option PaymentProvider → PaymentStatus → Bool
paid (some stripe) status = is_authorized_or_captured status
paid (some store_balance) status = is_authorized_or_captured status
paid (some mock) status = is_authorized_or_captured status
paid _ status = false

-- What each operation asks of the record, the provider's test for a fulfillment being `paid`.
abbrev pub may_start : Operation → Transaction → Bool
may_start payment t = may_pay t.payment_provider t.payment_status
may_start fulfillment t = not (
    has_value t.recovery_started_at
    || is_fraud_review t.failure_code
    || has_value t.provider_transaction_id
    || not (is_pending t.status)
    || not (paid t.payment_provider t.payment_status))
may_start recovery t = is_authorized_or_captured t.payment_status

-- A record that passes the test is written, and the claim answers whether it was.
abbrev pub claim_if :
    (Transaction → Bool) → (Transaction → Transaction) → ℕ → Option Transaction → Method Bool
claim_if test write id none s = (ok false, s)
claim_if test write id (some t) s =
    if test t
    then (ok true, record s { transactions = put id (write t) s.transactions })
    else (ok false, s)

unfoldable pub claim_operation : ℕ → ℕ → Operation → ℕ → Method Bool
claim_operation now id operation when s =
    claim_if (λ t. not (has_value (started_at operation t)) && may_start operation t)
      (λ t. record (start operation when t) { updated_at = now }) id (get id s.transactions) s

abbrev pub same_option : Option ℕ → Option ℕ → Bool
same_option none none = true
same_option (some i) (some j) = i == j
same_option _ _ = false

abbrev pub same_bool : Bool → Bool → Bool
same_bool true b = b
same_bool false b = not b

-- The guards of `claimSecurityRefund`, on the current record and the one that the caller read.
abbrev pub may_refund : Transaction → Transaction → Bool
may_refund given current =
    current.updated_at == given.updated_at
    && is_stripe current.payment_provider
    && same_bool current.test_mode given.test_mode
    && current.payment_environment == given.payment_environment
    && current.recharge_environment == given.recharge_environment
    && current.is_flupflap
    && is_pending current.status
    && is_captured current.payment_status
    && is_fraud_review current.failure_code
    && not (
        has_value current.fulfillment_started_at
        || has_value current.provider_transaction_id
        || has_value current.operator_transaction_id
        || has_value current.delivered_at
        || has_value current.recovery_started_at)
    && same_option current.payment_provider_transaction_id given.payment_provider_transaction_id

unfoldable pub claim_security_refund : ℕ → Transaction → ℕ → ℕ → Method Bool
claim_security_refund now given reason when s =
    claim_if (may_refund given)
      (λ t. record t {
        status = failed;
        payment_status = refund_pending;
        failure_code = some security_refund_required;
        payment_recovery_code = some reason;
        recovery_started_at = some when;
        failed_at = some when;
        updated_at = now;
      })
      given.id (get given.id s.transactions) s

abbrev pub may_cancel : Transaction → Transaction → Bool
may_cancel given current =
    current.updated_at == given.updated_at
    && is_pending current.status
    && is_session_created current.payment_status
    && same_option current.payment_session_id given.payment_session_id
    && not (
        has_value current.payment_provider_transaction_id
        || has_value current.payment_authorization_id
        || has_value current.provider_transaction_id
        || has_value current.fulfillment_started_at
        || has_value current.payment_recovery_code)

unfoldable pub cancel_pending_by_admin : ℕ → Transaction → ℕ → Method Bool
cancel_pending_by_admin now given when s =
    claim_if (may_cancel given)
      (λ t. record t {
        status = failed;
        payment_status = payment_failed;
        failure_code = some cancelled_by_admin;
        failed_at = some when;
        updated_at = now;
      })
      given.id (get given.id s.transactions) s

unfoldable pub hide_transaction_from_customer : ℕ → ℕ → ℕ → ℕ → Method Bool
hide_transaction_from_customer now user_id id when s =
    claim_if
      (λ t. t.user_id == user_id && not (has_value t.customer_hidden_at) && is_finished t.status)
      (λ t. record t { customer_hidden_at = some when; updated_at = now }) id
      (get id s.transactions) s
