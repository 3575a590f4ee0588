-- ===== src/Topup/Errors.antt =====
-- `MobileTopUpError` of apps/api/src/topup/types.ts: the code, the HTTP status and the access
-- record that a purchase limit carries. Messages are not modelled.
use ticash.Prelude.{ℕ, Option, none, Result}

pub data AccessMode : Type 0 where
  temporary_limit change_amount admin_review : AccessMode

-- Times are milliseconds since the epoch.
pub record PurchaseAccess : Type 0 where
  pub mode : AccessMode
  pub server_time : ℕ
  pub retry_at : Option ℕ
  pub retry_after_seconds : Option ℕ

pub data Code : Type 0 where
  invalid_topup_amount invalid_payment_amount invalid_operator_id : Code
  invalid_provider_response invalid_transaction_reference : Code
  recharge_limit_reached payment_attempt_limit payment_card_limit : Code
  topup_quote_not_found topup_quote_already_used topup_not_found : Code
  payment_event_conflict payment_event_mismatch payment_not_found : Code
  topup_not_cancellable topup_cancellation_unresolved topup_not_deletable : Code
  topup_environment_mismatch invalid_cancellation_reason : Code
  mobile_topup_disabled store_unavailable fraud_review_conflict invalid_payment_response : Code
  topup_rejected topup_submission_unknown : Code
  -- JavaScript's own errors
  type_error uri_error : Code

pub record MobileTopUpError : Type 0 where
  pub code : Code
  pub status_code : ℕ
  pub purchase_access : Option PurchaseAccess

abbrev pub fail_with : Code → ℕ → MobileTopUpError
fail_with c s = record { code = c; status_code = s; purchase_access = none }

abbrev pub Outcome : Type 0 → Type 0
Outcome A = Result MobileTopUpError A
