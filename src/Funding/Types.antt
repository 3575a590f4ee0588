-- ===== src/Funding/Types.antt =====
-- The types of apps/api/src/funding/types.ts and repository.ts. Identifiers and texts that the code
-- only copies and compares are numbers; times are milliseconds; an amount is whole cents.
use ticash.Prelude.{ℕ, Bool, false, Option, List, [], ◌∷◌, ◌==◌, ◌||◌, Result}
use Prim.Native.String.{String}
use ticash.Prelude.Maps.{Map}
use ticash.Prelude.Int.{ℤ}

pub data FundingStatus : Type 0 where
  pending processing completed failed cancelled reversed : FundingStatus

pub data FundingSourceStatus : Type 0 where
  unverified verified source_failed removed : FundingSourceStatus

-- The codes of `FundingError`.
pub data FundingError : Type 0 where
  funding_source_not_found funding_not_found webhook_event_conflict insufficient_funds :
      FundingError
  unknown_provider_status funding_disabled funding_configuration_error : FundingError
  funding_source_not_verifiable micro_deposits_not_initiated : FundingError
  micro_deposit_attempts_exceeded funding_source_verification_pending : FundingError
  funding_source_removed funding_source_unverified funding_source_in_use : FundingError
  dwolla_customer_required destination_funding_source_unavailable : FundingError
  idempotency_conflict invalid_webhook_resource : FundingError
  -- an error that is no `FundingError`, such as a network failure
  other_error : FundingError
  -- the codes that are stored for such an error, and the provider's own code of a failed transfer
  dwolla_request_failed webhook_processing_failed : FundingError
  provider_failure : String → FundingError

abbrev pub Outcome : Type 0 → Type 0
Outcome A = Result FundingError A

pub record FundingCustomerRecord : Type 0 where
  pub id : ℕ
  pub user_id : ℕ
  pub provider_customer_id : ℕ
  pub provider_customer_url : ℕ
  pub status : ℕ

pub record FundingSourceRecord : Type 0 where
  pub id : ℕ
  pub user_id : ℕ
  pub provider_customer_id : ℕ
  pub provider_funding_source_id : ℕ
  pub provider_funding_source_url : ℕ
  pub name : ℕ
  pub bank_name : Option ℕ
  -- digits
  pub last_four : List ℕ
  pub bank_account_type : ℕ
  pub status : FundingSourceStatus
  pub is_default : Bool
  pub micro_deposits_initiated_at : Option ℕ
  pub verification_attempts : ℕ
  pub verification_failure_code : Option String
  pub removed_at : Option ℕ
  pub created_at : ℕ
  pub updated_at : ℕ

pub record FundingTransactionRecord : Type 0 where
  pub id : ℕ
  pub user_id : ℕ
  pub funding_source_id : ℕ
  pub transfer_id : Option ℕ
  pub amount : ℕ
  pub status : FundingStatus
  pub idempotency_key : ℕ
  pub request_hash : ℕ
  pub provider_transfer_id : Option ℕ
  pub provider_transfer_url : Option ℕ
  pub failure_code : Option FundingError
  pub created_at : ℕ
  pub updated_at : ℕ

pub data WebhookStatus : Type 0 where
  event_processing event_processed event_failed : WebhookStatus

pub record WebhookEvent : Type 0 where
  pub id : ℕ
  pub topic : String
  pub payload_hash : ℕ
  pub status : WebhookStatus
  pub error_code : Option FundingError

-- The keys of the in-memory ledger: `dwolla-funding:ID:settled` and `:reversed`,
-- `remittance:ID:reserved` and `:released`. The texts differ where the constructors or the
-- identifiers do.
pub data Reference : Type 0 where
  settled_reference reversed_reference reserve_reference release_reference : ℕ → Reference

abbrev pub same_reference : Reference → Reference → Bool
same_reference (settled_reference i) (settled_reference j) = i == j
same_reference (reversed_reference i) (reversed_reference j) = i == j
same_reference (reserve_reference i) (reserve_reference j) = i == j
same_reference (release_reference i) (release_reference j) = i == j
same_reference _ _ = false

abbrev pub has_reference : List Reference → Reference → Bool
has_reference [] r = false
has_reference (q ∷ qs) r = same_reference q r || has_reference qs r

-- The module-level maps of repository.ts.
pub record FundingStore : Type 0 where
  pub customers : Map FundingCustomerRecord
  pub sources : Map FundingSourceRecord
  pub transactions : Map FundingTransactionRecord
  pub webhook_events : Map WebhookEvent
  pub ledger_references : List Reference
  pub wallet_balances : Map ℤ
