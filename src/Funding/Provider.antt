-- ===== src/Funding/Provider.antt =====
-- What the service of apps/api/src/funding/service.ts talks to: the types of types.ts, the provider, the
-- audit writer and the listener on status changes, which are parameters, and the calls made to them.
-- An identifier or a text that is only copied or compared is a number; a text that the code reads is
-- a `String`.
use Prim.Native.String.{String}
use ticash.Prelude.{
  ℕ, Bool, true, false, ◌&&◌, Option, none, some, List, ◌∷◌, if◌then◌else◌, ok, err,
}
use ticash.Prelude.Texts.{codes, lower, lower_codes, same_codes}
use ticash.Prelude.Actions.{Action}
use ticash.Funding.Types.{
  FundingStatus, processing, completed, failed, cancelled, FundingSourceStatus, FundingError,
  unknown_provider_status, funding_disabled, funding_configuration_error, FundingTransactionRecord,
  FundingStore, Outcome,
}
use ticash.Funding.Repository.{Method}

pub data DwollaEnvironment : Type 0 where
  sandbox production : DwollaEnvironment

-- The client's credentials are the provider's concern.
pub record FundingConfig : Type 0 where
  pub enabled : Bool
  pub environment : DwollaEnvironment
  pub master_funding_source_url : Option ℕ
  pub production_enabled : Bool
  pub live_funding_enabled : Bool
  pub approved_for_live_use : Bool

pub record DwollaCustomerInput : Type 0 where
  pub first_name : ℕ
  pub last_name : ℕ
  pub email : ℕ

pub record DwollaCustomer : Type 0 where
  pub id : ℕ
  pub url : ℕ
  pub status : ℕ

-- What a user enters; the account number is its digits.
pub record BankInput : Type 0 where
  pub routing_number : ℕ
  pub account_number : List ℕ
  pub bank_account_type : ℕ
  pub name : ℕ

pub record DwollaFundingSource : Type 0 where
  pub id : ℕ
  pub url : ℕ
  pub name : ℕ
  pub bank_name : Option ℕ
  pub bank_account_type : ℕ
  pub status : FundingSourceStatus

pub record DwollaTransfer : Type 0 where
  pub id : ℕ
  pub url : ℕ
  pub status : String
  pub failure_code : Option String

pub record DwollaWebhookEnvelope : Type 0 where
  pub id : ℕ
  pub topic : String
  pub resource_url : Option ℕ

-- The idempotency key is the text `USER:KEY`.
pub record TransferInput : Type 0 where
  pub source_url : ℕ
  pub destination_url : ℕ
  pub cents : ℕ
  pub correlation_id : ℕ
  pub user_id : ℕ
  pub idempotency_key : ℕ

-- What the provider answers to a call, or the error that it throws.
pub record DwollaFundingProvider : Type 0 where
  pub create_customer : DwollaCustomerInput → Outcome DwollaCustomer
  pub create_funding_source : ℕ → BankInput → Outcome DwollaFundingSource
  pub list_funding_sources : ℕ → Outcome (List DwollaFundingSource)
  pub get_funding_source : ℕ → Outcome DwollaFundingSource
  pub remove_funding_source : ℕ → Outcome DwollaFundingSource
  pub initiate_micro_deposits : ℕ → Outcome (Unit {0})
  pub verify_micro_deposits : ℕ → ℕ → ℕ → Outcome DwollaFundingSource
  pub initiate_transfer : TransferInput → Outcome DwollaTransfer
  pub get_transfer : ℕ → Outcome DwollaTransfer
  pub cancel_transfer : ℕ → Outcome DwollaTransfer

pub data AuditAction : Type 0 where
  customer_created source_created micro_deposits_initiated verification_attempted : AuditAction
  verification_failed source_verified default_source_changed source_removed : AuditAction
  funding_requested funding_cancelled : AuditAction
  -- `DWOLLA_${topic.toUpperCase()}` and `DWOLLA_FUNDING_${status}`
  topic_received : String → AuditAction
  status_received : FundingStatus → AuditAction

-- A call to the provider or the audit writer.
pub data Call : Type 0 where
  asks_customer : DwollaCustomerInput → Call
  asks_source : ℕ → BankInput → Call
  lists_sources reads_source removes_source starts_deposits : ℕ → Call
  verifies_deposits : ℕ → ℕ → ℕ → Call
  starts_transfer : TransferInput → Call
  reads_transfer cancels_transfer : ℕ → Call
  audits : ℕ → AuditAction → ℕ → Call

-- The repository's store, and the calls made so far, the latest first.
pub record ServiceState : Type 0 where
  pub store : FundingStore
  pub calls : List Call

abbrev pub Service : Type 0 → Type 0
Service A = Action ServiceState FundingError A

-- `new URL(url)`: its path's non-empty segments. `with_path` sets the path.
pub record Url : Type 0 where
  pub href : ℕ
  pub segments : List String

-- What the service is made with; the hash of a request and the parsing of addresses stand outside the
-- program.
pub record FundingEnv : Type 0 where
  pub config : FundingConfig
  pub provider : Option DwollaFundingProvider
  pub audit : ℕ → AuditAction → ℕ → Outcome (Unit {0})
  pub on_status_changed : FundingTransactionRecord → Service (Unit {0})
  pub hash_of : ℕ → ℕ → Option ℕ → ℕ
  pub parse_url : ℕ → Outcome Url
  pub with_path : Url → List String → ℕ
  -- the number of a segment as an identifier
  pub id_of : String → ℕ

-- A call of the repository.
abbrev pub repo : {A : Type 0} → Method A → Service A
repo m s = ((m s.store).0, record s { store = (m s.store).1 })

abbrev pub query : {A : Type 0} → (FundingStore → A) → Service A
query f s = (ok (f s.store), s)

-- A call that is answered by `r`.
abbrev pub ask : {A : Type 0} → Call → Outcome A → Service A
ask c r s = (r, record s { calls = c ∷ s.calls })

-- `requireProvider`
abbrev pub provider_of : Bool → Option DwollaFundingProvider → Outcome DwollaFundingProvider
provider_of false p = err funding_disabled
provider_of true none = err funding_configuration_error
provider_of true (some p) = ok p

abbrev pub require_provider : FundingEnv → Service DwollaFundingProvider
require_provider env s = (provider_of env.config.enabled env.provider, s)

abbrev pub write_audit : FundingEnv → ℕ → AuditAction → ℕ → Service (Unit {0})
write_audit env user_id action id = ask (audits user_id action id) (env.audit user_id action id)

abbrev is_production : DwollaEnvironment → Bool
is_production production = true
is_production sandbox = false

-- `productionEnabled` of `availability()`
unfoldable pub production_available : FundingConfig → Bool
production_available c =
    is_production c.environment
    && c.production_enabled
    && c.live_funding_enabled
    && c.approved_for_live_use

-- The text is the word, its letters in either case.
spells : String → String → Bool
spells text word = same_codes (lower_codes (codes text)) (codes word)

unfoldable pub map_dwolla_transfer_status : String → Outcome FundingStatus
unfolding spells lower
map_dwolla_transfer_status status =
    if spells status "pending"
    then ok processing
    else if spells status "processed"
    then ok completed
    else if spells status "failed"
    then ok failed
    else if spells status "cancelled"
    then ok cancelled
    else err unknown_provider_status
