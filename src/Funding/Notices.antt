-- ===== src/Funding/Notices.antt =====
-- `processWebhook` of `FundingService` (apps/api/src/funding/service.ts), and the topics and addresses
-- that it reads.
use Prim.Native.String.{String, ◌++◌ as ◌<>◌}
use text.Mathlib.Text.{starts_with, ◌==◌ as str_eq}
use ticash.Prelude.{
  ℕ, zero, suc, Bool, true, false, not, ◌||◌, Option, none, some, List, [], ◌∷◌, ok, err,
  if◌then◌else◌,
}
use ticash.Prelude.Lists.{any}
use ticash.Prelude.Actions.{pure, throw, lift, attempt, when, ◌>>=◌, ◌>>◌}
use ticash.Funding.Types.{
  FundingSourceStatus, source_failed, removed, FundingError, other_error, webhook_processing_failed,
  invalid_webhook_resource, FundingSourceRecord, FundingTransactionRecord, Outcome,
}
use ticash.Funding.Repository.{
  list_sources, get_source_by_provider_id, update_source, set_default_source,
  get_transaction_by_provider_id,
}
use ticash.Funding.Settlement.{apply_provider_status}
use ticash.Funding.Webhooks.{reserve_webhook, complete_webhook, fail_webhook}
use ticash.Funding.Provider.{
  FundingEnv, DwollaFundingProvider, DwollaFundingSource, DwollaTransfer, DwollaWebhookEnvelope,
  Service, repo, query, ask, require_provider, write_audit, reads_source, reads_transfer,
  topic_received, status_received, map_dwolla_transfer_status,
}
use ticash.Funding.Sources.{is_verified, is_removed, is_failed, is_verified_default}
use ticash.Funding.Requests.{remote_failure}

-- `isTransferLifecycleTopic`, the alternatives of the expression written out.
abbrev topic_starts : List String
topic_starts = "" ∷ "bank_" ∷ "customer_" ∷ "customer_bank_" ∷ []

abbrev topic_ends : List String
topic_ends = "created" ∷ "cancelled" ∷ "failed" ∷ "completed" ∷ []

unfoldable pub is_transfer_lifecycle_topic : String → Bool
is_transfer_lifecycle_topic topic =
    any (λ (a : String). any (λ (z : String). str_eq topic (a <> "transfer_" <> z)) topic_ends)
      topic_starts

unfoldable pub is_source_topic : String → Bool
is_source_topic topic =
    starts_with topic "customer_funding_source_" || starts_with topic "customer_microdeposits_"

abbrev pub last_of : List String → Option String
last_of [] = none
last_of (x ∷ []) = some x
last_of (_ ∷ y ∷ rest) = last_of (y ∷ rest)

abbrev pub but_last : List String → List String
but_last [] = []
but_last (x ∷ []) = []
but_last (x ∷ y ∷ rest) = x ∷ but_last (y ∷ rest)

abbrev pub is_text : Option String → String → Bool
is_text none t = false
is_text (some s) t = str_eq s t

module _ (env : FundingEnv) where
  -- `providerIdFromUrl`
  abbrev pub provider_id_from_url : ℕ → Outcome ℕ
  provider_id_from_url url = elim (env.parse_url url) [
    | err e ↦ err e
    | ok u ↦ elim (last_of u.segments) [
      | none ↦ err invalid_webhook_resource
      | some id ↦ ok (env.id_of id)
    ]
  ]

  abbrev source_url_at : ℕ → List String → Outcome ℕ
  source_url_at href segments =
      if is_text (last_of (but_last segments)) "funding-sources"
      then ok href
      else err invalid_webhook_resource

  -- `fundingSourceUrlFromWebhook`. A segment before the last means that there is a last one.
  abbrev pub funding_source_url_from_webhook : ℕ → Outcome ℕ
  funding_source_url_from_webhook url = elim (env.parse_url url) [
    | err e ↦ err e
    | ok u ↦
        if is_text (last_of u.segments) "micro-deposits"
        then source_url_at (env.with_path u (but_last u.segments)) (but_last u.segments)
        else source_url_at u.href u.segments
  ]

pub record Processed : Type 0 where
  pub duplicate : Bool
  pub ignored : Bool

abbrev pub webhook_failure_of : FundingError → FundingError
webhook_failure_of other_error = webhook_processing_failed
webhook_failure_of e = e

-- `failed` of the webhook's handler
abbrev pub is_failure_topic : String → Bool
is_failure_topic topic =
    str_eq topic "customer_microdeposits_failed"
    || str_eq topic "customer_microdeposits_maxattempts"

abbrev pub status_from_topic : String → FundingSourceStatus → FundingSourceStatus
status_from_topic topic status =
    if str_eq topic "customer_funding_source_removed"
    then removed
    else if is_failure_topic topic
    then source_failed
    else status

-- The update of a source that the provider reports on.
abbrev pub reported_source :
    ℕ
    → String
    → DwollaFundingSource
    → FundingSourceRecord
    → FundingSourceStatus
    → FundingSourceRecord
    → FundingSourceRecord
reported_source now topic remote local status x = record x {
  status = status;
  name = remote.name;
  bank_name = remote.bank_name;
  bank_account_type = remote.bank_account_type;
  is_default = if is_removed status || is_failed status then false else local.is_default;
  verification_failure_code = if is_failure_topic topic then some topic else none;
  removed_at = if is_removed status then some now else none;
}

-- `id || …`, the empty text being 0.
abbrev pub id_or : ℕ → Outcome ℕ → Outcome ℕ
id_or zero other = other
id_or (suc n) other = ok (suc n)

module _ (env : FundingEnv) where
  abbrev pub apply_source_report :
      ℕ → String → DwollaFundingSource → Option FundingSourceRecord → Service (Unit {0})
  apply_source_report now topic remote none = pure tt
  apply_source_report now topic remote (some local) = do
    let status = status_from_topic topic remote.status
    _ ←
        repo
          (update_source now local.user_id local.id (reported_source now topic remote local status))
    when (is_verified status) do
      sources ← query (list_sources local.user_id)
      when (not (any is_verified_default sources))
          do _ ← repo (set_default_source now local.user_id local.id); pure tt
    write_audit env local.user_id (topic_received topic) local.id

  abbrev is_absent : Option FundingSourceRecord → Bool
  is_absent none = true
  is_absent (some _) = false

  abbrev pub source_notice : ℕ → ℕ → String → ℕ → DwollaFundingProvider → Service Processed
  source_notice now event_id topic url provider = do
    source_url ← lift (funding_source_url_from_webhook env url)
    remote ← ask (reads_source source_url) (provider.get_funding_source source_url)
    id ← lift (id_or remote.id (provider_id_from_url env source_url))
    local ← query (get_source_by_provider_id id)
    apply_source_report now topic remote local
    repo (complete_webhook event_id)
    pure (record { duplicate = false; ignored = is_absent local })

  abbrev pub ignored_notice : ℕ → Service Processed
  ignored_notice event_id = do
    repo (complete_webhook event_id)
    pure (record { duplicate = false; ignored = true })

  abbrev pub apply_transfer_report :
      ℕ → ℕ → DwollaTransfer → Option FundingTransactionRecord → Service Processed
  apply_transfer_report now event_id remote none = ignored_notice event_id
  apply_transfer_report now event_id remote (some local) = do
    status ← lift (map_dwolla_transfer_status remote.status)
    updated ← repo (apply_provider_status now local.id status (remote_failure remote))
    env.on_status_changed updated
    write_audit env local.user_id (status_received status) local.id
    repo (complete_webhook event_id)
    pure (record { duplicate = false; ignored = false })

  abbrev pub transfer_notice : ℕ → ℕ → ℕ → DwollaFundingProvider → Service Processed
  transfer_notice now event_id url provider = do
    remote ← ask (reads_transfer url) (provider.get_transfer url)
    id ← lift (id_or remote.id (provider_id_from_url env url))
    local ← query (get_transaction_by_provider_id id)
    apply_transfer_report now event_id remote local

  -- The `try` of `processWebhook`.
  abbrev pub notice : ℕ → ℕ → String → Option ℕ → DwollaFundingProvider → Service Processed
  notice now event_id topic none provider = ignored_notice event_id
  notice now event_id topic (some url) provider =
      if is_source_topic topic
      then source_notice now event_id topic url provider
      else if is_transfer_lifecycle_topic topic
      then transfer_notice now event_id url provider
      else ignored_notice event_id

  abbrev pub notice_failed : ℕ → FundingError → Service Processed
  notice_failed event_id error = do
    repo (fail_webhook event_id (webhook_failure_of error))
    throw error

  unfoldable pub process_webhook : ℕ → ℕ → DwollaWebhookEnvelope → ℕ → Service Processed
  process_webhook uuid now envelope payload_hash = do
    provider ← require_provider env
    reservation ← repo (reserve_webhook uuid envelope.id envelope.topic payload_hash)
    if reservation.duplicate
        then pure (record { duplicate = true; ignored = false })
        else attempt (notice now reservation.event_id envelope.topic envelope.resource_url provider)
            (notice_failed reservation.event_id)
