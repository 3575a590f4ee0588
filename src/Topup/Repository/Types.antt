-- ===== src/Topup/Repository/Types.antt =====
-- The records of apps/api/src/topup/repository.ts, with the fields that the modelled methods read or
-- write. Identifiers and texts are numbers; an absent or empty text is none; times are milliseconds.
use Prim.Native.String.{String}
use ticash.Prelude.{ℕ, Bool, true, false, Option, none, some, List}
use ticash.Prelude.Maps.{Map}
use ticash.Prelude.Actions.{Action}
use ticash.Topup.Errors.{MobileTopUpError}

pub data Status : Type 0 where
  pending processing delivered failed refunded : Status

pub data PaymentStatus : Type 0 where
  payment_pending session_created authorized captured payment_failed : PaymentStatus
  void_pending voided refund_pending payment_refunded : PaymentStatus

pub data PaymentProvider : Type 0 where
  mock stripe dwolla store_balance : PaymentProvider

pub data FailureCode : Type 0 where
  fraud_review_required security_refund_required cancelled_by_admin : FailureCode
  fraud_review_approved order_rejected submission_unknown provider_failed : FailureCode
  -- `PROVIDER_${code}`
  provider_failure : ℕ → FailureCode
  other_failure : ℕ → FailureCode

pub record Transaction : Type 0 where
  pub id : ℕ
  pub user_id : ℕ
  -- `userId.startsWith('flupflap:')`
  pub is_flupflap : Bool
  pub quote_id : ℕ
  pub idempotency_key : ℕ
  pub status : Status
  pub payment_status : PaymentStatus
  pub payment_provider : Option PaymentProvider
  pub payment_environment : ℕ
  pub recharge_environment : ℕ
  pub test_mode : Bool
  pub payment_session_id : Option ℕ
  pub payment_authorization_id : Option ℕ
  pub payment_provider_transaction_id : Option ℕ
  pub provider_transaction_id : Option ℕ
  pub operator_transaction_id : Option ℕ
  pub payment_started_at : Option ℕ
  pub fulfillment_started_at : Option ℕ
  pub recovery_started_at : Option ℕ
  pub payment_recovery_code : Option ℕ
  pub failure_code : Option FailureCode
  pub created_at : ℕ
  pub updated_at : ℕ
  pub delivered_at : Option ℕ
  pub failed_at : Option ℕ
  pub customer_hidden_at : Option ℕ
  pub refunded_at : Option ℕ
  pub checkout_resume_token_hash : Option ℕ
  pub recipient_phone : ℕ
  pub country_code : String
  pub receiver_language : Option String
  pub receiver_value_confirmed : Bool
  -- in units of 10^-8; none is also a value that is no such multiple
  pub delivered_value : Option ℕ
  pub delivered_currency : String
  pub recipient_id : Option ℕ
  pub product_id : ℕ
  pub product_name : ℕ
  -- `usdMinorUnits(totalChargeUsd)`
  pub total_charge_minor : ℕ

pub record Quote : Type 0 where
  pub id : ℕ
  pub user_id : ℕ
  pub expires_at : ℕ
  pub consumed_at : Option ℕ

pub record SavedRecipient : Type 0 where
  pub id : ℕ
  pub user_id : ℕ
  pub nickname : ℕ
  pub phone : ℕ
  pub country_code : String
  pub operator_id : Option ℕ
  pub last_product_id : Option ℕ
  pub last_product_name : Option ℕ
  pub created_at : ℕ
  pub updated_at : ℕ

pub data NotificationStatus : Type 0 where
  waiting sent received not_sent : NotificationStatus

pub data ErrorCategory : Type 0 where
  sms_not_configured provider_rejected sms_outcome_unknown : ErrorCategory

pub record ReceiverNotification : Type 0 where
  pub transaction_id : ℕ
  pub phone : ℕ
  pub country : String
  pub language : String
  pub amount : ℕ
  pub currency : String
  pub status : NotificationStatus
  pub provider_message_id : Option ℕ
  pub attempts : ℕ
  pub last_error_category : Option ErrorCategory
  pub claimed_at : Option ℕ
  pub created_at : ℕ
  pub updated_at : ℕ
  pub sent_at : Option ℕ
  pub delivered_at : Option ℕ

-- A hash by its shape: 64 hexadecimal digits, the same after `v2:`, or another text.
pub data PayloadHash : Type 0 where
  legacy_hash current_hash other_hash : ℕ → PayloadHash

pub record PaymentEvent : Type 0 where
  pub payload_hash : PayloadHash
  pub transaction_id : ℕ
  pub processed : Bool

-- `mobile-topup:ID:delivered` and `mobile-topup:ID:refunded`
pub data LedgerReference : Type 0 where
  delivered_reference refunded_reference : ℕ → LedgerReference

-- The module-level maps.
pub record TopUpStore : Type 0 where
  pub quotes : Map Quote
  pub transactions : Map Transaction
  pub notifications : Map ReceiverNotification
  pub recipients : Map SavedRecipient
  pub ledger_references : List LedgerReference
  pub payment_events : Map PaymentEvent

abbrev pub Method : Type 0 → Type 0
Method A = Action TopUpStore MobileTopUpError A

abbrev pub has_value : {A : Type 0} → Option A → Bool
has_value none = false
has_value (some _) = true
