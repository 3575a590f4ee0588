-- ===== src/Funding/Verification.antt =====
-- `verifyMicroDeposits`, `setDefaultFundingSource` and `removeFundingSource` of `FundingService`
-- (apps/api/src/funding/service.ts).

use ticash.Prelude.{ℕ, ◌+◌, Bool, false, not, ◌||◌, some, leb, if◌then◌else◌}
use ticash.Prelude.Lists.{find, any}
use ticash.Prelude.Actions.{pure, throw, raise_if, when, attempt, ◌>>=◌, ◌>>◌}
use ticash.Funding.Types.{
  source_failed, removed, FundingError, funding_source_not_verifiable, micro_deposits_not_initiated,
  micro_deposit_attempts_exceeded, funding_source_verification_pending, funding_source_removed,
  funding_source_unverified, funding_source_in_use, FundingSourceRecord,
}
use ticash.Funding.Repository.{
  list_sources, update_source, set_default_source, has_active_transactions,
}
use ticash.Funding.Provider.{
  FundingEnv, DwollaFundingProvider, DwollaFundingSource, Service, repo, query, ask,
  require_provider, write_audit, removes_source, verifies_deposits, verification_attempted,
  verification_failed, source_verified, default_source_changed, source_removed,
}
use ticash.Funding.Sources.{
  PublicFundingSource, public_source, is_verified, is_removed, is_failed, has_value,
  is_verified_default, own_source, choose_default,
}

-- `status: 'FAILED', verificationFailureCode: 'MAX_ATTEMPTS'`
abbrev pub exhausted : FundingSourceRecord → FundingSourceRecord
exhausted x = record x { status = source_failed; verification_failure_code = some "MAX_ATTEMPTS" }

module _ (env : FundingEnv) where
  -- The `catch` of a verification that the provider refused.
  abbrev pub verification_refused : ℕ → ℕ → ℕ → Bool → FundingError → Service DwollaFundingSource
  verification_refused now user_id id failed_permanently error = do
    when failed_permanently do _ ← repo (update_source now user_id id exhausted); pure tt
    write_audit env user_id verification_failed id
    throw (if failed_permanently then micro_deposit_attempts_exceeded else error)

  abbrev pub attempt_verification :
      ℕ → ℕ → ℕ → ℕ → DwollaFundingProvider → FundingSourceRecord → Service PublicFundingSource
  attempt_verification now user_id amount1 amount2 provider source = do
    attempted ← repo (
        update_source now user_id source.id
          (λ x. record x { verification_attempts = source.verification_attempts + 1 }))
    write_audit env user_id verification_attempted source.id
    answer ←
        attempt
          (ask (verifies_deposits source.provider_funding_source_url amount1 amount2)
            (provider.verify_micro_deposits source.provider_funding_source_url amount1 amount2))
          (verification_refused now user_id source.id (leb 3 attempted.verification_attempts))
    raise_if (not (is_verified answer.status)) funding_source_verification_pending
    verified ← repo (
        update_source now user_id source.id
          (λ x. record x { status = answer.status; bank_name = answer.bank_name }))
    sources ← query (list_sources user_id)
    final ←
        if any is_verified_default sources
        then pure verified
        else repo (set_default_source now user_id source.id)
    write_audit env user_id source_verified source.id
    pure (public_source final)

  unfoldable pub verify_micro_deposits : ℕ → ℕ → ℕ → ℕ → ℕ → Service PublicFundingSource
  verify_micro_deposits now user_id id amount1 amount2 = do
    provider ← require_provider env
    source ← own_source env user_id id
    if is_verified source.status
        then pure (public_source source)
        else if is_removed source.status || is_failed source.status
        then throw funding_source_not_verifiable
        else if not (has_value source.micro_deposits_initiated_at)
        then throw micro_deposits_not_initiated
        else if leb 3 source.verification_attempts
        then throw micro_deposit_attempts_exceeded
        else attempt_verification now user_id amount1 amount2 provider source

  unfoldable pub set_default_funding_source : ℕ → ℕ → ℕ → Service PublicFundingSource
  set_default_funding_source now user_id id = do
    _ ← require_provider env
    source ← own_source env user_id id
    raise_if (is_removed source.status) funding_source_removed
    raise_if (not (is_verified source.status)) funding_source_unverified
    updated ← repo (set_default_source now user_id source.id)
    write_audit env user_id default_source_changed source.id
    pure (public_source updated)

  abbrev pub remove_known :
      ℕ → ℕ → DwollaFundingProvider → FundingSourceRecord → Service PublicFundingSource
  remove_known now user_id provider source = do
    in_use ← query (has_active_transactions source.id)
    raise_if in_use funding_source_in_use
    _ ←
        ask (removes_source source.provider_funding_source_url)
          (provider.remove_funding_source source.provider_funding_source_url)
    gone ← repo (
        update_source now user_id source.id
          (λ x. record x { status = removed; is_default = false; removed_at = some now }))
    sources ← query (list_sources user_id)
    when source.is_default (
        choose_default env now user_id
          (find (λ (x : FundingSourceRecord). is_verified x.status) sources))
    write_audit env user_id source_removed source.id
    pure (public_source gone)

  unfoldable pub remove_funding_source : ℕ → ℕ → ℕ → Service PublicFundingSource
  remove_funding_source now user_id id = do
    provider ← require_provider env
    source ← own_source env user_id id
    if is_removed source.status
        then pure (public_source source)
        else remove_known now user_id provider source
