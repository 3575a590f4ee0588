-- ===== src/Funding/SourceCalls.antt =====
-- The methods on customers and bank accounts of apps/api/src/funding/service.ts start no transfer and
-- forget no funding.
use ticash.Prelude.{ℕ, Option, none, some, List, [], ◌∷◌, Bool}
use ticash.Prelude.Keeps.{
  Keeps, pure-Keeps, throw-Keeps, or_raise-Keeps, raise_if-Keeps, when-Keeps, if_leads, bind_leads,
  attempt_leads,
}
use ticash.Funding.Types.{FundingError, FundingCustomerRecord, FundingSourceRecord}
use ticash.Funding.Provider.{
  FundingEnv, ServiceState, DwollaCustomerInput, DwollaFundingProvider, DwollaFundingSource,
  BankInput,
}
use ticash.Funding.Sources.{
  create_customer, create_new_customer, refresh_local, refresh_all, choose_default,
  list_of_customer, list_funding_sources, create_funding_source, start_deposits,
  initiate_micro_deposits,
}
use ticash.Funding.Verification.{
  verification_refused, attempt_verification, verify_micro_deposits, set_default_funding_source,
  remove_known, remove_funding_source,
}
use ticash.Funding.Frames.{
  IsStable, repo_same, ask-Keeps, query-Keeps, provider-Keeps, audit-Keeps,
  save_customer-LeavesFundings, save_source-LeavesFundings, update_source-LeavesFundings,
  set_default_source-LeavesFundings,
}

ruleset service_steps = (
  bind_leads, attempt_leads, if_leads, when-Keeps, pure-Keeps, throw-Keeps, or_raise-Keeps,
  raise_if-Keeps, save_customer-LeavesFundings, save_source-LeavesFundings,
  update_source-LeavesFundings, set_default_source-LeavesFundings,
)

module _ (user_id key : ℕ) (P : ServiceState → Type 0) (stable : IsStable user_id key P)
    (env : FundingEnv) where
  create_new_customer-Keeps :
      (uuid user : ℕ) (input : DwollaCustomerInput) (p : DwollaFundingProvider)
      (o : Option FundingCustomerRecord)
      → Keeps P (create_new_customer env uuid user input p o)
  create_new_customer-Keeps uuid user input p none =
      search
        (
          service_steps,
          ask-Keeps user_id key P stable,
          repo_same user_id key P stable,
          audit-Keeps user_id key P stable,
        )
        depth 14
  create_new_customer-Keeps uuid user input p (some c) = pure-Keeps P _

  pub create_customer-Keeps :
      (uuid user : ℕ) (input : DwollaCustomerInput) → Keeps P (create_customer env uuid user input)
  unfolding create_customer
  create_customer-Keeps uuid user input =
      search
        (
          service_steps,
          provider-Keeps user_id key P stable,
          query-Keeps user_id key P stable,
          create_new_customer-Keeps,
        )
        depth 14

  refresh_local-Keeps :
      (now user : ℕ) (r : DwollaFundingSource) (o : Option FundingSourceRecord)
      → Keeps P (refresh_local env now user r o)
  refresh_local-Keeps now user r none = pure-Keeps P _
  refresh_local-Keeps now user r (some x) =
      search (service_steps, repo_same user_id key P stable) depth 14

  refresh_all-Keeps :
      (now user : ℕ) (locals : List FundingSourceRecord) (rs : List DwollaFundingSource)
      → Keeps P (refresh_all env now user locals rs)
  refresh_all-Keeps now user locals [] = pure-Keeps P _
  refresh_all-Keeps now user locals (r ∷ rs) =
      bind_leads (refresh_local-Keeps now user r _) (λ _. refresh_all-Keeps now user locals rs)

  choose_default-Keeps :
      (now user : ℕ) (o : Option FundingSourceRecord) → Keeps P (choose_default env now user o)
  choose_default-Keeps now user none = pure-Keeps P _
  choose_default-Keeps now user (some x) =
      search (service_steps, repo_same user_id key P stable) depth 14

  list_of_customer-Keeps :
      (now user : ℕ) (p : DwollaFundingProvider) (o : Option FundingCustomerRecord)
      → Keeps P (list_of_customer env now user p o)
  list_of_customer-Keeps now user p none = pure-Keeps P _
  list_of_customer-Keeps now user p (some c) =
      search
        (
          service_steps,
          ask-Keeps user_id key P stable,
          query-Keeps user_id key P stable,
          refresh_all-Keeps,
          choose_default-Keeps,
        )
        depth 14

  pub list_funding_sources-Keeps : (now user : ℕ) → Keeps P (list_funding_sources env now user)
  unfolding list_funding_sources
  list_funding_sources-Keeps now user =
      search
        (
          service_steps,
          provider-Keeps user_id key P stable,
          query-Keeps user_id key P stable,
          list_of_customer-Keeps,
        )
        depth 14

  pub create_funding_source-Keeps :
      (uuid now user : ℕ) (input : BankInput)
      → Keeps P (create_funding_source env uuid now user input)
  unfolding create_funding_source
  create_funding_source-Keeps uuid now user input =
      search
        (
          service_steps,
          ask-Keeps user_id key P stable,
          repo_same user_id key P stable,
          audit-Keeps user_id key P stable,
          provider-Keeps user_id key P stable,
          query-Keeps user_id key P stable,
        )
        depth 14

  start_deposits-Keeps :
      (now user : ℕ) (p : DwollaFundingProvider) (x : FundingSourceRecord)
      → Keeps P (start_deposits env now user p x)
  start_deposits-Keeps now user p x =
      search
        (
          service_steps,
          ask-Keeps user_id key P stable,
          repo_same user_id key P stable,
          audit-Keeps user_id key P stable,
        )
        depth 14

  pub initiate_micro_deposits-Keeps :
      (now user id : ℕ) → Keeps P (initiate_micro_deposits env now user id)
  unfolding initiate_micro_deposits
  initiate_micro_deposits-Keeps now user id =
      search
        (
          service_steps,
          provider-Keeps user_id key P stable,
          query-Keeps user_id key P stable,
          start_deposits-Keeps,
        )
        depth 14

  verification_refused-Keeps :
      (now user id : ℕ) (b : Bool) (e : FundingError)
      → Keeps P (verification_refused env now user id b e)
  verification_refused-Keeps now user id b e =
      search (service_steps, repo_same user_id key P stable, audit-Keeps user_id key P stable) depth
        14

  attempt_verification-Keeps :
      (now user a b : ℕ) (p : DwollaFundingProvider) (x : FundingSourceRecord)
      → Keeps P (attempt_verification env now user a b p x)
  attempt_verification-Keeps now user a b p x =
      search
        (
          service_steps,
          ask-Keeps user_id key P stable,
          repo_same user_id key P stable,
          audit-Keeps user_id key P stable,
          query-Keeps user_id key P stable,
          verification_refused-Keeps,
        )
        depth 14

  pub verify_micro_deposits-Keeps :
      (now user id a b : ℕ) → Keeps P (verify_micro_deposits env now user id a b)
  unfolding verify_micro_deposits
  verify_micro_deposits-Keeps now user id a b =
      search
        (
          service_steps,
          provider-Keeps user_id key P stable,
          query-Keeps user_id key P stable,
          attempt_verification-Keeps,
        )
        depth 14

  pub set_default_funding_source-Keeps :
      (now user id : ℕ) → Keeps P (set_default_funding_source env now user id)
  unfolding set_default_funding_source
  set_default_funding_source-Keeps now user id =
      search
        (
          service_steps,
          repo_same user_id key P stable,
          audit-Keeps user_id key P stable,
          provider-Keeps user_id key P stable,
          query-Keeps user_id key P stable,
        )
        depth 14

  remove_known-Keeps :
      (now user : ℕ) (p : DwollaFundingProvider) (x : FundingSourceRecord)
      → Keeps P (remove_known env now user p x)
  remove_known-Keeps now user p x =
      search
        (
          service_steps,
          ask-Keeps user_id key P stable,
          repo_same user_id key P stable,
          audit-Keeps user_id key P stable,
          query-Keeps user_id key P stable,
          choose_default-Keeps,
        )
        depth 14

  pub remove_funding_source-Keeps :
      (now user id : ℕ) → Keeps P (remove_funding_source env now user id)
  unfolding remove_funding_source
  remove_funding_source-Keeps now user id =
      search
        (
          service_steps,
          provider-Keeps user_id key P stable,
          query-Keeps user_id key P stable,
          remove_known-Keeps,
        )
        depth 14
