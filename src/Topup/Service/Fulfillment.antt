-- ===== src/Topup/Service/Fulfillment.antt =====
-- `fulfillPaidRecharge` and `reviewHeldRecharge` of apps/api/src/topup/service.ts.
use ticash.Prelude.{ℕ, Bool, true, false, not, ◌&&◌, ◌||◌, Option, none, some, ◌==◌, if◌then◌else◌}
use ticash.Prelude.Actions.{pure, throw, or_raise, raise_if, when, attempt, ◌>>=◌, ◌>>◌}
use ticash.Topup.Errors.{
  MobileTopUpError, Outcome, fail_with, topup_not_found, fraud_review_conflict, topup_rejected,
  topup_submission_unknown, type_error,
}
use ticash.Topup.Repository.Types.{
  processing, failed, fraud_review_required, fraud_review_approved, order_rejected,
  submission_unknown, Transaction,
}
use ticash.Topup.Repository.Claims.{
  claim_operation, fulfillment, is_pending, is_captured, is_authorized_or_captured, is_fraud_review,
  is_stripe,
}
use ticash.Topup.Repository.Updates.{TransactionUpdate, give, update_transaction}
use ticash.Topup.Repository.PaymentEvents.{update_recipient_last_used}
use ticash.Topup.Service.Environment.{
  RechargeEnv, RechargeService, ProviderTopUpResult, repo, get_transaction_by_id, ask, submits,
  checks_product, asks_gate, approves_review, write_audit, fraud_review, fulfillment_started,
  fulfillment_reconciliation, submitted, assert_enabled, assert_transaction_environment,
}
use ticash.Topup.Service.Recovery.{no_update, payment_recovery_required, recover_payment}
use ticash.Topup.Service.Results.{apply_provider_result}
use ticash.Topup.Service.SecurityRefunds.{refund_confirmed_security_failure}

-- More codes, as numbers.
abbrev pub reconciliation_required : ℕ
reconciliation_required = 3

abbrev pub review_approved : ℕ
review_approved = 4

abbrev pub payment_risk_unavailable : ℕ
payment_risk_unavailable = 5

-- Which recharges the fraud gate looks at.
abbrev pub is_gated : RechargeEnv → Transaction → Bool
is_gated env t =
    t.is_flupflap
    && (not t.test_mode || env.automatic_security_refunds)
    && is_stripe t.payment_provider
    && is_pending t.status
    && is_authorized_or_captured t.payment_status

-- The update after a submission that threw.
abbrev pub failed_submission : ℕ → Bool → TransactionUpdate
failed_submission now true = record no_update {
  status = give failed;
  failure_code = give (some order_rejected);
  payment_recovery_code = give (some payment_recovery_required);
  failed_at = give (some now);
}
failed_submission now false = record no_update {
  status = give processing;
  failure_code = give (some submission_unknown);
  payment_recovery_code = give (some reconciliation_required);
}

abbrev pub submission_error : Bool → MobileTopUpError
submission_error true = fail_with topup_rejected 502
submission_error false = fail_with topup_submission_unknown 502

module _ (env : RechargeEnv) (now id : ℕ) where
  abbrev pub submit_order : Transaction → RechargeService ProviderTopUpResult
  submit_order t = do
    ask (checks_product id) (env.revalidate_quote_product t)
    ask (submits id) (env.submit_top_up t)

  -- The `catch` of the submission.
  abbrev pub submission_failed :
      Transaction → MobileTopUpError → RechargeService ProviderTopUpResult
  submission_failed t error = do
    let rejected : Bool = error.status_code == 400
    _ ← repo (update_transaction now id (failed_submission now rejected))
    write_audit env fulfillment_reconciliation id
    when rejected (do _ ← recover_payment env now id false true; pure tt)
    throw (submission_error rejected)

  abbrev pub use_recipient : Transaction → Option ℕ → RechargeService (Unit {0})
  use_recipient t none = pure tt
  use_recipient t (some recipient) =
      repo (update_recipient_last_used now t.user_id recipient t.product_id t.product_name)

  -- What follows an order that was taken.
  abbrev pub after_order : Transaction → ProviderTopUpResult → RechargeService (Option Transaction)
  after_order t result = do
    updated ← apply_provider_result env now id result true
    use_recipient t t.recipient_id
    shown ← or_raise updated (fail_with type_error 500)
    write_audit env submitted id
    pure (some shown)

  abbrev pub submit_claimed : Transaction → RechargeService (Option Transaction)
  submit_claimed t = do
    write_audit env fulfillment_started id
    result ← attempt (submit_order t) (submission_failed t)
    after_order t result

  abbrev pub submit : Transaction → RechargeService (Option Transaction)
  submit t = do
    mine ← repo (claim_operation now id fulfillment now)
    if mine then submit_claimed t else get_transaction_by_id id

  -- The fraud gate; one that is missing or throws is a reason.
  abbrev pub ask_gate :
      Transaction → Option (Transaction → Outcome (Option ℕ)) → RechargeService (Option ℕ)
  ask_gate t none = pure (some payment_risk_unavailable)
  ask_gate t (some gate) =
      attempt (ask (asks_gate id) (gate t)) (λ _. pure (some payment_risk_unavailable))

  abbrev pub hold_or_submit : Transaction → Option ℕ → RechargeService (Option Transaction)
  hold_or_submit t none = submit t
  hold_or_submit t (some reason) = do
    held ← repo (
        update_transaction now id (record no_update {
          failure_code = give (some fraud_review_required);
          payment_recovery_code = give (some reason);
        }))
    write_audit env fraud_review id
    refund_confirmed_security_failure env now held

  abbrev pub pass_gate : Transaction → RechargeService (Option Transaction)
  pass_gate t =
      if is_fraud_review t.failure_code
      then refund_confirmed_security_failure env now t
      else ask_gate t env.fraud_gate >>= hold_or_submit t

  unfoldable pub fulfill_paid_recharge : RechargeService (Option Transaction)
  fulfill_paid_recharge = do
    assert_enabled env
    found ← get_transaction_by_id id
    t ← or_raise found (fail_with topup_not_found 404)
    assert_transaction_environment env t
    if is_gated env t then pass_gate t else submit t

  abbrev pub is_held : Transaction → Bool
  is_held t = is_fraud_review t.failure_code && is_pending t.status && is_captured t.payment_status

  unfoldable pub review_held_recharge : ℕ → ℕ → RechargeService (Option Transaction)
  review_held_recharge actor note = do
    found ← get_transaction_by_id id
    t ← or_raise found (fail_with fraud_review_conflict 409)
    raise_if (not (is_held t)) (fail_with fraud_review_conflict 409)
    approve ← or_raise env.approve_fraud_review (fail_with fraud_review_conflict 409)
    ask (approves_review id) (approve t actor note)
    _ ← repo (
        update_transaction now id (record no_update {
          failure_code = give (some fraud_review_approved);
          payment_recovery_code = give (some review_approved);
        }))
    fulfill_paid_recharge
