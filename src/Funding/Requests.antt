-- ===== src/Funding/Requests.antt =====
-- `initiateFunding`, `getFunding`, `cancelFunding` and `walletBalance` of `FundingService`
-- (apps/api/src/funding/service.ts). An amount is whole cents, which `toFixed(2)`
-- writes.
use ticash.Prelude.{ℕ, Bool, true, false, not, Option, some, ◌==◌, if◌then◌else◌}
use mathlib.Core.Option.{map as map_option}
use ticash.Prelude.Int.{ℤ}
use ticash.Prelude.Actions.{pure, throw, lift, or_raise, raise_if, attempt, ◌>>=◌, ◌>>◌}
use ticash.Funding.Types.{
  FundingStatus, failed, FundingError, other_error, dwolla_request_failed, provider_failure,
  funding_not_found, funding_source_removed, funding_source_unverified, idempotency_conflict,
  destination_funding_source_unavailable, FundingSourceRecord, FundingTransactionRecord,
}
use ticash.Funding.Repository.{
  FundingRequest, reserve_transaction, attach_provider_transfer, get_transaction,
}
use ticash.Funding.Settlement.{apply_provider_status, wallet_balance}
use ticash.Funding.Provider.{
  FundingEnv, DwollaFundingProvider, DwollaTransfer, TransferInput, Service, repo, query, ask,
  require_provider, write_audit, starts_transfer, reads_transfer, cancels_transfer,
  funding_requested, funding_cancelled, map_dwolla_transfer_status,
}
use ticash.Funding.Sources.{is_verified, is_removed, own_source}

pub record PublicFundingTransaction : Type 0 where
  pub id : ℕ
  pub amount : ℕ
  pub status : FundingStatus
  pub failure_code : Option FundingError
  pub created_at : ℕ
  pub updated_at : ℕ
  pub transfer_id : Option ℕ

abbrev pub public_transaction : FundingTransactionRecord → PublicFundingTransaction
public_transaction t = record {
  id = t.id;
  amount = t.amount;
  status = t.status;
  failure_code = t.failure_code;
  created_at = t.created_at;
  updated_at = t.updated_at;
  transfer_id = t.transfer_id;
}

pub record Funded : Type 0 where
  pub transaction : PublicFundingTransaction
  pub idempotent_replay : Bool

-- The arguments of `initiateFunding`.
pub record FundingInput : Type 0 where
  pub user_id : ℕ
  pub funding_source_id : ℕ
  pub amount : ℕ
  pub idempotency_key : ℕ
  pub transfer_id : Option ℕ

-- `error instanceof FundingError ? error.code : 'DWOLLA_REQUEST_FAILED'`
abbrev pub failure_code_of : FundingError → FundingError
failure_code_of other_error = dwolla_request_failed
failure_code_of e = e

-- The provider's own code of a failed transfer.
abbrev pub remote_failure : DwollaTransfer → Option FundingError
remote_failure t = map_option provider_failure t.failure_code

module _ (env : FundingEnv) where
  abbrev pub request_of : ℕ → FundingInput → FundingRequest
  request_of uuid input = record {
    id = uuid;
    user_id = input.user_id;
    funding_source_id = input.funding_source_id;
    transfer_id = input.transfer_id;
    amount = input.amount;
    idempotency_key = input.idempotency_key;
    request_hash = env.hash_of input.funding_source_id input.amount input.transfer_id;
  }

  abbrev pub replayed : ℕ → FundingTransactionRecord → Service Funded
  replayed request_hash t = do
    raise_if (not (t.request_hash == request_hash)) idempotency_conflict
    env.on_status_changed t
    pure (record { transaction = public_transaction t; idempotent_replay = true })

  -- The part of the `try` before the transfer is attached.
  abbrev pub send_transfer :
      ℕ
      → ℕ
      → FundingInput
      → DwollaFundingProvider
      → FundingSourceRecord
      → FundingTransactionRecord
      → Service FundingTransactionRecord
  send_transfer now destination_url input provider source t = do
    let sent : TransferInput = record {
      source_url = source.provider_funding_source_url;
      destination_url = destination_url;
      cents = input.amount;
      correlation_id = t.id;
      user_id = input.user_id;
      idempotency_key = input.idempotency_key;
    }
    transfer ← ask (starts_transfer sent) (provider.initiate_transfer sent)
    status ← lift (map_dwolla_transfer_status transfer.status)
    repo (attach_provider_transfer now t.id transfer.id transfer.url status)

  -- The `catch` while no transfer is attached.
  abbrev pub send_failed :
      ℕ → FundingTransactionRecord → FundingError → Service FundingTransactionRecord
  send_failed now t error = do
    lost ← repo (apply_provider_status now t.id failed (some (failure_code_of error)))
    env.on_status_changed lost
    throw error

  abbrev pub send_reserved :
      ℕ
      → ℕ
      → FundingInput
      → DwollaFundingProvider
      → FundingSourceRecord
      → FundingTransactionRecord
      → Service Funded
  send_reserved now destination_url input provider source t = do
    saved ← attempt (send_transfer now destination_url input provider source t) (send_failed now t)
    env.on_status_changed saved
    write_audit env input.user_id funding_requested saved.id
    pure (record { transaction = public_transaction saved; idempotent_replay = false })

  -- From the reservation on.
  abbrev pub reserve_and_send :
      ℕ → ℕ → ℕ → FundingInput → DwollaFundingProvider → FundingSourceRecord → Service Funded
  reserve_and_send uuid now destination_url input provider source = do
    reservation ← repo (reserve_transaction now (request_of uuid input))
    if reservation.created
        then send_reserved now destination_url input provider source reservation.reserved
        else replayed (request_of uuid input).request_hash reservation.reserved

  unfoldable pub initiate_funding : ℕ → ℕ → FundingInput → Service Funded
  initiate_funding uuid now input = do
    provider ← require_provider env
    destination_url ←
        or_raise env.config.master_funding_source_url destination_funding_source_unavailable
    source ← own_source env input.user_id input.funding_source_id
    raise_if (is_removed source.status) funding_source_removed
    raise_if (not (is_verified source.status)) funding_source_unverified
    reserve_and_send uuid now destination_url input provider source

  abbrev pub refresh_transaction :
      ℕ
      → DwollaFundingProvider
      → Bool
      → FundingTransactionRecord
      → Option ℕ
      → Service FundingTransactionRecord
  refresh_transaction now provider true t (some url) = do
    remote ← ask (reads_transfer url) (provider.get_transfer url)
    status ← lift (map_dwolla_transfer_status remote.status)
    updated ← repo (apply_provider_status now t.id status (remote_failure remote))
    env.on_status_changed updated
    pure updated
  refresh_transaction now provider refresh t url = pure t

  unfoldable pub get_funding : ℕ → ℕ → ℕ → Bool → Service PublicFundingTransaction
  get_funding now user_id id refresh = do
    provider ← require_provider env
    found ← query (get_transaction user_id id)
    t ← or_raise found funding_not_found
    latest ← refresh_transaction now provider refresh t t.provider_transfer_url
    pure (public_transaction latest)

  unfoldable pub cancel_funding : ℕ → ℕ → ℕ → Service PublicFundingTransaction
  cancel_funding now user_id id = do
    provider ← require_provider env
    found ← query (get_transaction user_id id)
    t ← or_raise found funding_not_found
    url ← or_raise t.provider_transfer_url funding_not_found
    remote ← ask (cancels_transfer url) (provider.cancel_transfer url)
    status ← lift (map_dwolla_transfer_status remote.status)
    cancelled_ ← repo (apply_provider_status now t.id status (remote_failure remote))
    env.on_status_changed cancelled_
    write_audit env user_id funding_cancelled t.id
    pure (public_transaction cancelled_)

  unfoldable pub service_balance : ℕ → Service ℤ
  service_balance user_id = do _ ← require_provider env; query (wallet_balance user_id)
