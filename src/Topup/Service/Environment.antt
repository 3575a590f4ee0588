-- ===== src/Topup/Service/Environment.antt =====
-- What `MobileTopUpService` (apps/api/src/topup/service.ts) is made with, and the calls that it makes to
-- it. The providers, the store balance, the fraud gate, the receipt mails and the audit writer are
-- parameters; so is the answer of the check of the product against the provider's catalog, which
-- changes nothing. The clock is an argument.
use Prim.Native.String.{String}
use ticash.Prelude.{ℕ, Bool, not, ◌||◌, Option, List, ◌∷◌, ◌==◌, ok}
use ticash.Prelude.Actions.{Action, raise_if}
use ticash.Prelude.Maps.{get}
use ticash.Topup.Errors.{
  MobileTopUpError, Outcome, fail_with, mobile_topup_disabled, topup_environment_mismatch,
}
use ticash.Topup.Evidence.{PaymentEvidence}
use ticash.Topup.Repository.Types.{PaymentStatus, Transaction, TopUpStore, Method}
use ticash.Topup.Repository.Claims.{same_bool}

pub data StripeStatus : Type 0 where
  canceled succeeded requires_capture other_stripe_status : StripeStatus

-- The fields of a payment of Stripe that the code reads; none is a value of another shape.
pub record StripePayment : Type 0 where
  pub id : Option ℕ
  pub status : StripeStatus
  pub livemode : Option Bool
  pub is_usd : Bool
  pub amount : Option ℕ
  pub amount_received : Option ℕ
  pub amount_capturable : Option ℕ
  pub transaction_id : Option ℕ

pub data RefundStatus : Type 0 where
  is_refunded is_refund_pending : RefundStatus

pub data VoidStatus : Type 0 where
  is_voided is_void_pending : VoidStatus

-- The methods may be absent. A payment, a recharge and the amount in cents.
pub record PaymentRecovery : Type 0 where
  pub refund : Option (ℕ → ℕ → ℕ → Outcome RefundStatus)
  pub void : Option (ℕ → ℕ → Outcome VoidStatus)

pub record StripeProvider : Type 0 where
  pub fraud_evidence : ℕ → ℕ → Outcome PaymentEvidence
  pub get_payment : ℕ → Outcome StripePayment
  pub refund : ℕ → ℕ → ℕ → Outcome RefundStatus
  pub void : ℕ → ℕ → Outcome VoidStatus

-- The fields that are read; a delivered amount is whole units of 10^-8.
pub record ProviderTopUpResult : Type 0 where
  pub transaction_id : ℕ
  pub status : String
  pub operator_transaction_id : Option ℕ
  pub provider_failure_code : Option ℕ
  pub delivered_amount : Option ℕ
  pub delivered_currency : String

pub data AuditAction : Type 0 where
  fraud_review fulfillment_started fulfillment_reconciliation submitted : AuditAction
  security_refund_requested security_refund_confirmed receipt_sent receipt_failed : AuditAction
  payment_voided payment_reconciliation : AuditAction
  -- `MOBILE_TOPUP_PAYMENT_${status}`
  payment_moved : PaymentStatus → AuditAction

-- A call to what the service is made with, for a recharge.
pub data RechargeCall : Type 0 where
  submits refunds_for_security : ℕ → RechargeCall
  refunds voids reads_payment reads_evidence checks_product : ℕ → RechargeCall
  asks_gate approves_review sends_receipt store_refunds store_delivers : ℕ → RechargeCall
  audits : AuditAction → ℕ → RechargeCall

-- The repository's store, and the calls made so far, the latest first.
pub record RechargeState : Type 0 where
  pub store : TopUpStore
  pub calls : List RechargeCall

abbrev pub RechargeService : Type 0 → Type 0
RechargeService A = Action RechargeState MobileTopUpError A

-- `StoreBalancePayment` of apps/api/src/flupflap/stores.ts, which works on the same recharges.
pub record StoreBalancePayment : Type 0 where
  pub delivered : Transaction → RechargeService (Unit {0})
  pub refund : Transaction → RechargeService (Unit {0})

pub record RechargeEnv : Type 0 where
  pub enabled : Bool
  -- the sandbox is 0
  pub environment : ℕ
  pub automatic_security_refunds : Bool
  pub submit_top_up : Transaction → Outcome ProviderTopUpResult
  pub revalidate_quote_product : Transaction → Outcome (Unit {0})
  pub payment_provider : PaymentRecovery
  pub stripe_provider : Option StripeProvider
  pub store_balance : Option StoreBalancePayment
  pub sender_receipt_email : Option (Transaction → Outcome Bool)
  pub fraud_gate : Option (Transaction → Outcome (Option ℕ))
  pub approve_fraud_review : Option (Transaction → ℕ → ℕ → Outcome (Unit {0}))
  pub audit : AuditAction → ℕ → Outcome (Unit {0})
  -- what other calls do to the recharges in the turns of the loop of `recoverPayment`
  pub meanwhile : List (TopUpStore → TopUpStore)

abbrev pub repo : {A : Type 0} → Method A → RechargeService A
repo m s = ((m s.store).0, record s { store = (m s.store).1 })

-- `getTransactionById(id)`
abbrev pub get_transaction_by_id : ℕ → RechargeService (Option Transaction)
get_transaction_by_id id s = (ok (get id s.store.transactions), s)

-- A call that is answered by `r`.
abbrev pub ask : {A : Type 0} → RechargeCall → Outcome A → RechargeService A
ask c r s = (r, record s { calls = c ∷ s.calls })

abbrev pub write_audit : RechargeEnv → AuditAction → ℕ → RechargeService (Unit {0})
write_audit env a id = ask (audits a id) (env.audit a id)

abbrev pub assert_enabled : RechargeEnv → RechargeService (Unit {0})
assert_enabled env = raise_if (not env.enabled) (fail_with mobile_topup_disabled 503)

-- `assertTransactionEnvironment`; `isTestMode()` is the sandbox.
abbrev pub is_other_environment : RechargeEnv → Transaction → Bool
is_other_environment env t =
    not (t.payment_environment == t.recharge_environment)
    || not (t.payment_environment == env.environment)
    || not (t.recharge_environment == env.environment)
    || not (same_bool t.test_mode (env.environment == 0))

abbrev pub assert_transaction_environment : RechargeEnv → Transaction → RechargeService (Unit {0})
assert_transaction_environment env t =
    raise_if (is_other_environment env t) (fail_with topup_environment_mismatch 409)
