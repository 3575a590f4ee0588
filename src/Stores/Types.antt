-- ===== src/Stores/Types.antt =====
-- The rows that apps/api/src/flupflap/stores.ts reads and writes. Identifiers and texts that are only
-- copied and compared are numbers; times are milliseconds.
use ticash.Prelude.{ℕ, Bool, false, Option, List, ◌==◌}
use ticash.Prelude.Maps.{Map}
use ticash.Prelude.Int.{ℤ}
use ticash.Prelude.Actions.{Action}

pub data StoreStatus : Type 0 where
  store_pending active suspended rejected : StoreStatus

pub record Store : Type 0 where
  pub id : ℕ
  pub customer_id : ℕ
  pub test_mode : Bool
  pub country : ℕ
  pub status : StoreStatus
  pub commission_bps : ℕ
  -- a 32-bit integer column
  pub balance_cents : ℤ

-- Of the customer, what decides whether the account may sell.
pub record Customer : Type 0 where
  pub is_active : Bool
  pub guest_expires_at : Option ℕ
  pub recharge_restricted : Bool

-- The texts `deposit:ID`, `purchase:ID`, `refund:ID`, `commission:ID` and `balance-return:REFERENCE`.
pub data EntryReference : Type 0 where
  deposit purchase refund commission balance_return : ℕ → EntryReference

abbrev pub same_entry : EntryReference → EntryReference → Bool
same_entry (deposit i) (deposit j) = i == j
same_entry (purchase i) (purchase j) = i == j
same_entry (refund i) (refund j) = i == j
same_entry (commission i) (commission j) = i == j
same_entry (balance_return i) (balance_return j) = i == j
same_entry _ _ = false

-- The entry's kind is told by its reference.
pub record Entry : Type 0 where
  pub store_id : ℕ
  pub reference : EntryReference
  pub amount_cents : ℤ
  pub balance_after_cents : ℤ

pub data OrderStatus : Type 0 where
  held delivered refunded : OrderStatus

pub record Order : Type 0 where
  pub store_id : ℕ
  pub total_cents : ℕ
  pub fee_cents : ℕ
  pub commission_bps : ℕ
  pub commission_cents : ℕ
  pub status : OrderStatus

pub data RequestStatus : Type 0 where
  request_pending approved request_rejected : RequestStatus

pub record FundingRequest : Type 0 where
  pub id : ℕ
  pub store_id : ℕ
  pub amount_cents : ℕ
  pub reference : ℕ
  pub status : RequestStatus
  pub reviewed_by : Option ℕ
  pub reviewed_at : Option ℕ

pub data Account : Type 0 where
  funding_clearing balance held_account provider_settlement fee_revenue : Account

-- `store:` and the entry's reference, `store:hold:ID` or `store:delivery:ID`. A positive line is a
-- debit, a negative one a credit.
pub data JournalReference : Type 0 where
  store_entry : EntryReference → JournalReference
  hold delivery : ℕ → JournalReference

-- The keys of its accounts tell the test mode from the live one.
pub record Journal : Type 0 where
  pub test_mode : Bool
  pub reference : JournalReference
  pub lines : List (Account × ℤ)

pub data RechargeStatus : Type 0 where
  recharge_pending recharge_processing recharge_delivered recharge_failed recharge_refunded :
      RechargeStatus

pub data PaymentStatus : Type 0 where
  pending captured payment_refunded other_payment_status : PaymentStatus

-- Of `MobileTopUpTransaction`, the columns that stores.ts uses. The dollar columns are in cents.
pub record Recharge : Type 0 where
  pub id : ℕ
  pub customer_id : Option ℕ
  pub is_store_balance : Bool
  pub test_mode : Bool
  pub quote_id : ℕ
  pub status : RechargeStatus
  pub payment_status : PaymentStatus
  pub payment_authorization_id : Option ℕ
  pub payment_started_at : Option ℕ
  pub payment_recovery_code : Option ℕ
  pub total_charge_cents : ℕ
  pub fee_charge_cents : ℕ

pub record Audit : Type 0 where
  pub actor : ℕ
  pub entity_id : ℕ

pub record Database : Type 0 where
  pub customers : Map Customer
  pub stores : Map Store
  pub entries : List Entry
  pub orders : Map Order
  pub funding : Map FundingRequest
  pub journals : List Journal
  pub recharges : Map Recharge
  -- the expiry of a quote
  pub quotes : Map ℕ
  -- the quotes that a promotion is redeemed on
  pub promoted_quotes : List ℕ
  pub audit_log : List Audit

-- The codes of `fail`, and what the database throws: a missing row, a broken unique constraint.
pub data Code : Type 0 where
  registered_account_required store_payment_mismatch store_account_required store_account_restricted
        store_not_active :
      Code
  topup_quote_expired store_promotion_not_allowed invalid_store_amount : Code
  store_insufficient_balance store_settlement_not_confirmed unbalanced_store_journal : Code
  store_environment_mismatch store_country_not_enabled deposit_already_reviewed : Code
  deposit_reference_already_used balance_return_reference_conflict : Code
  invalid_store_commission row_not_found unique_violation : Code
  integer_out_of_range : Code

pub record Failure : Type 0 where
  pub code : Code
  pub status_code : ℕ

abbrev pub fail : Code → ℕ → Failure
fail c n = record { code = c; status_code = n }

abbrev pub Method : Type 0 → Type 0
Method A = Action Database Failure A
