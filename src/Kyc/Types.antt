-- ===== src/Kyc/Types.antt =====
-- The types of apps/api/src/kyc/types.ts and repository.ts. Identifiers and texts that the code only
-- copies and compares are numbers, and a text that is read is a `String`; times are milliseconds.
use Prim.Native.String.{String}
use ticash.Prelude.{
  ℕ, Bool, Option, none, some, List, [], ◌∷◌, ◌==◌, if◌then◌else◌, Result, ok, err, map,
}
use ticash.Prelude.Lists.{any}
use ticash.Prelude.Maps.{Map}
use ticash.Prelude.Texts.{codes, lower, lower_codes, same_codes, is_space, trim}

pub data KycStatus : Type 0 where
  not_started pending in_review approved declined expired : KycStatus

pub data KycError : Type 0 where
  kyc_disabled kyc_configuration_error user_not_found kyc_already_approved : KycError
  didit_session_mismatch kyc_session_conflict kyc_vendor_mismatch : KycError
  kyc_webhook_event_conflict unknown_didit_status : KycError
  -- an error that is no `KycError`, such as a network failure
  other_error : KycError

abbrev pub Outcome : Type 0 → Type 0
Outcome A = Result KycError A

pub data FailureReason : Type 0 where
  didit_declined didit_expired : FailureReason

-- The user as the application keeps it, with its status.
pub record KycUser : Type 0 where
  pub user_id : ℕ
  pub email : ℕ
  pub phone : Option ℕ
  pub first_name : Option ℕ
  pub last_name : Option ℕ
  pub status : KycStatus

pub record MemoryProfile : Type 0 where
  pub didit_session_id : Option ℕ
  pub kyc_started_at : Option ℕ
  pub kyc_verified_at : Option ℕ
  pub kyc_failure_reason : Option FailureReason
  pub didit_status_updated_at : Option ℕ

-- A user with what its profile adds.
pub record KycUserRecord : Type 0 where
  pub user : KycUser
  pub profile : MemoryProfile

pub data EventStatus : Type 0 where
  event_processing event_processed event_failed : EventStatus

pub record KycEvent : Type 0 where
  pub id : ℕ
  pub status : EventStatus
  pub payload_hash : ℕ

-- The application's users, and the maps of the memory repository.
pub record KycStore : Type 0 where
  pub users : Map KycUser
  pub profiles : Map MemoryProfile
  pub webhook_events : Map KycEvent

-- `status.trim().toLowerCase().replaceAll('_', ' ')`
abbrev space_for : ℕ → ℕ
space_for c = if c == b'_' then b' ' else c

normal : String → List ℕ
normal status = map space_for (lower_codes (trim (codes status)))

is_one_of : List ℕ → List String → Bool
is_one_of text words = any (λ (w : String). same_codes text (codes w)) words

unfoldable pub map_didit_status : String → Outcome KycStatus
unfolding normal is_one_of lower is_space
map_didit_status status =
    let text = normal status in
    if is_one_of text ("not started" ∷ "in progress" ∷ "awaiting user" ∷ "resubmitted" ∷ [])
    then ok pending
    else if is_one_of text ("in review" ∷ [])
    then ok in_review
    else if is_one_of text ("approved" ∷ [])
    then ok approved
    else if is_one_of text ("declined" ∷ [])
    then ok declined
    else if is_one_of text ("expired" ∷ "abandoned" ∷ "kyc expired" ∷ [])
    then ok expired
    else err unknown_didit_status

abbrev pub failure_reason_for : KycStatus → Option FailureReason
failure_reason_for declined = some didit_declined
failure_reason_for expired = some didit_expired
failure_reason_for _ = none
