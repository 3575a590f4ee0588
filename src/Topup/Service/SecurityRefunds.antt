-- ===== src/Topup/Service/SecurityRefunds.antt =====
-- `refundConfirmedSecurityFailure` of apps/api/src/topup/service.ts.
use ticash.Prelude.{ℕ, Bool, false, not, ◌&&◌, ◌||◌, Option, none, some, [], ◌∷◌, if◌then◌else◌}
use ticash.Prelude.Actions.{pure, attempt, ◌>>=◌, ◌>>◌}
use ticash.Topup.Evidence.{
  Reason, payment_highest_risk, payment_verification_failed, payment_authentication_failed,
  automatic_security_refund_reason,
}
use ticash.Topup.Repository.Types.{refund_pending, payment_refunded, Transaction, has_value}
use ticash.Topup.Repository.Claims.{
  claim_security_refund, is_pending, is_captured, is_fraud_review, is_stripe, same_bool,
}
use ticash.Topup.Repository.Updates.{give, transition_payment}
use ticash.Topup.Service.Environment.{
  RechargeEnv, RechargeService, StripePayment, StripeProvider, RefundStatus, is_refunded,
  is_refund_pending, repo, get_transaction_by_id, ask, refunds_for_security, reads_payment,
  reads_evidence, write_audit, security_refund_requested, security_refund_confirmed,
  assert_transaction_environment,
}
use ticash.Topup.Service.Recovery.{recovery_confirmed, is_succeeded, is_amount, moved_to}

-- `automaticSecurityRefundReason(evidence) ?? 'PAYMENT_POLICY_REJECTED'`
abbrev pub reason_code : Option Reason → ℕ
reason_code (some payment_highest_risk) = 6
reason_code (some payment_verification_failed) = 7
reason_code (some payment_authentication_failed) = 8
reason_code _ = 9

-- The guards of `refundConfirmedSecurityFailure`, without the two that are options.
abbrev pub is_refundable : RechargeEnv → Transaction → Bool
is_refundable env t =
    env.automatic_security_refunds
    && t.is_flupflap
    && is_stripe t.payment_provider
    && is_pending t.status
    && is_captured t.payment_status
    && is_fraud_review t.failure_code
    && not (
        has_value t.fulfillment_started_at
        || has_value t.provider_transaction_id
        || has_value t.operator_transaction_id
        || has_value t.delivered_at
        || has_value t.recovery_started_at)

abbrev pub is_livemode : Option Bool → Bool → Bool
is_livemode none b = false
is_livemode (some a) b = same_bool a b

abbrev pub is_its_payment : ℕ → Transaction → StripePayment → Bool
is_its_payment payment_id t p =
    is_amount p.id payment_id
    && is_succeeded p.status
    && is_livemode p.livemode (not t.test_mode)
    && p.is_usd
    && is_amount p.amount t.total_charge_minor
    && is_amount p.amount_received t.total_charge_minor
    && is_amount p.transaction_id t.id

module _ (env : RechargeEnv) (now : ℕ) where
  -- The reason of the refund, where the evidence allows one.
  abbrev pub read_evidence : StripeProvider → ℕ → Transaction → RechargeService (Option ℕ)
  read_evidence p payment_id t = do
    evidence ← ask (reads_evidence t.id) (p.fraud_evidence payment_id t.id)
    if evidence.disputed || evidence.refunded then pure none else (do
      payment ← ask (reads_payment payment_id) (p.get_payment payment_id)
      if is_its_payment payment_id t payment
          then pure (some (reason_code (automatic_security_refund_reason evidence)))
          else pure none)

  abbrev pub refund_answered : Transaction → RefundStatus → RechargeService (Unit {0})
  refund_answered t is_refund_pending = pure tt
  refund_answered t is_refunded = do
    _ ← repo (
        transition_payment now t.id (refund_pending ∷ [])
          (record (moved_to payment_refunded recovery_confirmed) { refunded_at = give (some now) }))
    write_audit env security_refund_confirmed t.id

  -- The `try` after the claim.
  abbrev pub send_refund : StripeProvider → ℕ → Transaction → RechargeService (Unit {0})
  send_refund p payment_id t = do
    status ← ask (refunds_for_security t.id) (p.refund payment_id t.id t.total_charge_minor)
    refund_answered t status

  abbrev pub refund_claimed :
      StripeProvider → ℕ → Transaction → RechargeService (Option Transaction)
  refund_claimed p payment_id t =
      attempt (send_refund p payment_id t) (λ _. pure tt) >> get_transaction_by_id t.id

  abbrev pub claim_and_refund :
      StripeProvider → ℕ → Transaction → ℕ → RechargeService (Option Transaction)
  claim_and_refund p payment_id t reason = do
    mine ← repo (claim_security_refund now t reason now)
    if mine then refund_claimed p payment_id t else get_transaction_by_id t.id

  abbrev pub refund_for :
      StripeProvider → ℕ → Transaction → Option ℕ → RechargeService (Option Transaction)
  refund_for p payment_id t none = pure (some t)
  refund_for p payment_id t (some reason) = do
    write_audit env security_refund_requested t.id
    claim_and_refund p payment_id t reason

  abbrev pub refund_eligible :
      Transaction → Option StripeProvider → Option ℕ → RechargeService (Option Transaction)
  refund_eligible t (some p) (some payment_id) = do
    reason ← attempt (read_evidence p payment_id t) (λ _. pure none)
    refund_for p payment_id t reason
  refund_eligible t p payment_id = pure (some t)

  unfoldable pub refund_confirmed_security_failure :
      Transaction → RechargeService (Option Transaction)
  refund_confirmed_security_failure t = do
    assert_transaction_environment env t
    if is_refundable env t
        then refund_eligible t env.stripe_provider t.payment_provider_transaction_id
        else pure (some t)
