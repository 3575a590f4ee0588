-- ===== src/Funding/SingleSends.antt =====
-- Each funding of apps/api/src/funding/service.ts is sent to the provider once: over every sequence of
-- calls of the service.
use ticash.Prelude.{ℕ, Bool, true, false, Option, none, some}
use Prim.Native.String.{String}
use ticash.Prelude.Keeps.{
  Keeps, pure-Keeps, throw-Keeps, lift-Keeps, or_raise-Keeps, raise_if-Keeps, when-Keeps, if_leads,
  bind_leads, attempt_leads,
}
use ticash.Funding.Types.{FundingError, FundingSourceRecord, FundingTransactionRecord}
use ticash.Funding.Provider.{
  FundingEnv, ServiceState, DwollaFundingProvider, DwollaTransfer, DwollaFundingSource,
  DwollaWebhookEnvelope,
}
use ticash.Funding.Requests.{
  replayed, send_failed, refresh_transaction, get_funding, cancel_funding,
}
use ticash.Funding.Notices.{
  apply_source_report, source_notice, ignored_notice, apply_transfer_report, transfer_notice,
  notice, notice_failed, process_webhook,
}
use ticash.Funding.Sending.{apply_provider_status-Requested}
use ticash.Funding.Frames.{
  IsQuiet, IsStable, repo-Keeps, repo_same, ask-Keeps, query-Keeps, provider-Keeps, audit-Keeps,
  notify-Keeps, update_source-LeavesFundings, set_default_source-LeavesFundings,
  reserve_webhook-LeavesFundings, complete_webhook-LeavesFundings, fail_webhook-LeavesFundings,
}

ruleset service_steps = (
  bind_leads, attempt_leads, if_leads, when-Keeps, pure-Keeps, throw-Keeps, or_raise-Keeps,
  lift-Keeps, raise_if-Keeps, update_source-LeavesFundings, set_default_source-LeavesFundings,
  reserve_webhook-LeavesFundings, complete_webhook-LeavesFundings, fail_webhook-LeavesFundings,
)

module _ (user_id key : ℕ) (P : ServiceState → Type 0) (stable : IsStable user_id key P)
    (env : FundingEnv) (quiet : IsQuiet env) where
  refresh_transaction-Keeps :
      (now : ℕ) (p : DwollaFundingProvider) (b : Bool) (t : FundingTransactionRecord)
      (url : Option ℕ)
      → Keeps P (refresh_transaction env now p b t url)
  refresh_transaction-Keeps now p true t (some url) =
      search
        (
          service_steps,
          ask-Keeps user_id key P stable,
          repo-Keeps user_id key P stable,
          apply_provider_status-Requested,
          notify-Keeps user_id key P stable,
        )
        depth 14
  refresh_transaction-Keeps now p true t none = pure-Keeps P _
  refresh_transaction-Keeps now p false t url = pure-Keeps P _

  pub get_funding-Keeps : (now user id : ℕ) (b : Bool) → Keeps P (get_funding env now user id b)
  unfolding get_funding
  get_funding-Keeps now user id b =
      search
        (
          service_steps,
          provider-Keeps user_id key P stable,
          query-Keeps user_id key P stable,
          refresh_transaction-Keeps,
        )
        depth 14

  pub cancel_funding-Keeps : (now user id : ℕ) → Keeps P (cancel_funding env now user id)
  unfolding cancel_funding
  cancel_funding-Keeps now user id =
      search
        (
          service_steps,
          provider-Keeps user_id key P stable,
          query-Keeps user_id key P stable,
          ask-Keeps user_id key P stable,
          repo-Keeps user_id key P stable,
          apply_provider_status-Requested,
          notify-Keeps user_id key P stable,
          audit-Keeps user_id key P stable,
        )
        depth 18

  apply_source_report-Keeps :
      (now : ℕ) (topic : String) (r : DwollaFundingSource) (o : Option FundingSourceRecord)
      → Keeps P (apply_source_report env now topic r o)
  apply_source_report-Keeps now topic r none = pure-Keeps P _
  apply_source_report-Keeps now topic r (some x) =
      search
        (
          service_steps,
          repo_same user_id key P stable,
          query-Keeps user_id key P stable,
          audit-Keeps user_id key P stable,
        )
        depth 18

  ignored_notice-Keeps : (id : ℕ) → Keeps P (ignored_notice env id)
  ignored_notice-Keeps id = search (service_steps, repo_same user_id key P stable) depth 9

  source_notice-Keeps :
      (now id : ℕ) (topic : String) (url : ℕ) (p : DwollaFundingProvider)
      → Keeps P (source_notice env now id topic url p)
  source_notice-Keeps now id topic url p =
      search
        (
          service_steps,
          repo_same user_id key P stable,
          query-Keeps user_id key P stable,
          ask-Keeps user_id key P stable,
          apply_source_report-Keeps,
        )
        depth 18

  apply_transfer_report-Keeps :
      (now id : ℕ) (r : DwollaTransfer) (o : Option FundingTransactionRecord)
      → Keeps P (apply_transfer_report env now id r o)
  apply_transfer_report-Keeps now id r none = ignored_notice-Keeps id
  apply_transfer_report-Keeps now id r (some t) =
      search
        (
          service_steps,
          repo_same user_id key P stable,
          repo-Keeps user_id key P stable,
          apply_provider_status-Requested,
          notify-Keeps user_id key P stable,
          audit-Keeps user_id key P stable,
        )
        depth 18

  transfer_notice-Keeps :
      (now id url : ℕ) (p : DwollaFundingProvider) → Keeps P (transfer_notice env now id url p)
  transfer_notice-Keeps now id url p =
      search
        (
          service_steps,
          query-Keeps user_id key P stable,
          ask-Keeps user_id key P stable,
          apply_transfer_report-Keeps,
        )
        depth 14

  notice-Keeps :
      (now id : ℕ) (topic : String) (url : Option ℕ) (p : DwollaFundingProvider)
      → Keeps P (notice env now id topic url p)
  notice-Keeps now id topic none p = ignored_notice-Keeps id
  notice-Keeps now id topic (some url) p =
      search (if_leads, source_notice-Keeps, transfer_notice-Keeps, ignored_notice-Keeps)

  notice_failed-Keeps : (id : ℕ) (e : FundingError) → Keeps P (notice_failed env id e)
  notice_failed-Keeps id e = search (service_steps, repo_same user_id key P stable) depth 9

  pub process_webhook-Keeps :
      (uuid now : ℕ) (envelope : DwollaWebhookEnvelope) (hash : ℕ)
      → Keeps P (process_webhook env uuid now envelope hash)
  unfolding process_webhook
  process_webhook-Keeps uuid now envelope hash =
      search
        (
          service_steps,
          provider-Keeps user_id key P stable,
          repo_same user_id key P stable,
          notice-Keeps,
          notice_failed-Keeps,
        )
        depth 14

  pub replayed-Keeps : (hash : ℕ) (t : FundingTransactionRecord) → Keeps P (replayed env hash t)
  replayed-Keeps hash t = search (service_steps, notify-Keeps user_id key P stable) depth 9

  pub send_failed-Keeps :
      (now : ℕ) (t : FundingTransactionRecord) (e : FundingError)
      → Keeps P (send_failed env now t e)
  send_failed-Keeps now t e =
      search
        (
          service_steps,
          repo-Keeps user_id key P stable,
          apply_provider_status-Requested,
          notify-Keeps user_id key P stable,
        )
        depth 12
