-- ===== src/Funding/Tests.antt =====
-- Fundings, wallets and webhook events of the tests (apps/api/src/funding/repository.ts).
use ticash.Prelude.{◌≡◌, ◌⊎◌, refl, arith, true, false, some, none, [], ◌∷◌, ok, err}
use ticash.Prelude.Maps.{get}
use ticash.Prelude.Int.{pos, ◌+ℤ◌, ◌-ℤ◌, ◌≤ℤ◌}
use ticash.Funding.Types.{
  FundingStore, FundingSourceRecord, verified, completed, reversed, processing, insufficient_funds,
  other_error, webhook_event_conflict,
}
use ticash.Funding.Repository.{
  FundingRequest, reset_funding_store, reserve_transaction, attach_provider_transfer,
  set_default_source, Reservation,
}
use ticash.Funding.Settlement.{
  wallet_balance, apply_provider_status, reserve_wallet_for_transfer, release_wallet_for_transfer,
}
use ticash.Funding.Webhooks.{reserve_webhook, complete_webhook, fail_webhook}
use ticash.Funding.Conservation.{settled_total}
use ticash.Funding.Wallets.{
  refused, reserved, Reached, start, step, requested, attached, reported,
  wallet_balance-eq-settled_total,
}
use ticash.Funding.Laws.{IsMove, apply_provider_status_moves, apply_provider_status_replay}
use ticash.Funding.Holds.{reserved_call, held}
use ticash.Funding.Limits.{
  repeat, reserve_wallet_outcome, release-reserve, reserve_transaction_replay,
  set_default_source_unique,
}
use ticash.Funding.Events.{
  reserve_webhook_completed, reserve_webhook_failed, reserve_webhook_conflict,
}

-- $2500.00 of the user 7.
abbrev request : FundingRequest
request = record {
  id = 1;
  user_id = 7;
  funding_source_id = 3;
  transfer_id = none;
  amount = 250000;
  idempotency_key = 11;
  request_hash = 12;
}

abbrev funded : FundingStore
funded =
    (apply_provider_status 30 1 completed none
      (attach_provider_transfer 20 1 40 41 processing
        (reserve_transaction 10 request reset_funding_store).1).1).1

abbrev undone : FundingStore
undone = (apply_provider_status 50 1 reversed none funded).1

funded-Reached : Reached [] funded
unfolding reset_funding_store reserve_transaction attach_provider_transfer apply_provider_status
funded-Reached =
    step (step (step start (requested 10 request refl)) (attached 20 1 40 41 processing refl))
      (reported 30 1 completed none)

-- A transfer takes $1000.00, one of $9000.00 is refused, and the provider reverses the funding.
abbrev taken : FundingStore
taken = (reserve_wallet_for_transfer 7 9 100000 funded).1

abbrev overdrawn : FundingStore
overdrawn =
    (apply_provider_status 50 1 reversed none (reserve_wallet_for_transfer 7 8 900000 taken).1).1

overdrawn-Reached : Reached (reserved_call 7 9 100000 ∷ []) overdrawn
unfolding reset_funding_store reserve_transaction attach_provider_transfer apply_provider_status
    reserve_wallet_for_transfer wallet_balance ◌+ℤ◌ ◌-ℤ◌
overdrawn-Reached =
    step (refused (reserved funded-Reached 7 9 100000 refl) 7 8 900000 refl)
      (reported 50 1 reversed none)

wallet_balance-eq-settled_total_example :
    wallet_balance 7 overdrawn +ℤ held 7 (reserved_call 7 9 100000 ∷ []) ≡ settled_total 7 overdrawn
wallet_balance-eq-settled_total_example =
    wallet_balance-eq-settled_total (reserved_call 7 9 100000 ∷ []) overdrawn 7 overdrawn-Reached

funded_wallet : wallet_balance 7 funded ≡ pos 250000
unfolding reset_funding_store reserve_transaction attach_provider_transfer apply_provider_status
    wallet_balance ◌+ℤ◌ ◌-ℤ◌
funded_wallet = refl

apply_provider_status_moves_example : IsMove completed reversed
unfolding reset_funding_store reserve_transaction attach_provider_transfer apply_provider_status
apply_provider_status_moves_example =
    apply_provider_status_moves 50 1 reversed none funded refl refl

apply_provider_status_replay_example :
    let twice = (apply_provider_status 60 1 reversed none undone).1 in
    (twice.wallet_balances ≡ undone.wallet_balances)
    × (twice.ledger_references ≡ undone.ledger_references)
    × (reversed ≡ reversed)
unfolding reset_funding_store reserve_transaction attach_provider_transfer apply_provider_status
apply_provider_status_replay_example =
    apply_provider_status_replay 50 60 1 reversed none funded refl refl refl

reserve_wallet_outcome_example :
    let (r, s') = reserve_wallet_for_transfer 7 9 100000 funded in
    ((r ≡ ok tt)
      × (wallet_balance 7 s' +ℤ pos 100000 ≡ wallet_balance 7 funded)
      × (pos 0 ≤ℤ wallet_balance 7 s'))
    ⊎ ((r ≡ err insufficient_funds)
        × (s' ≡ funded)
        × (wallet_balance 7 funded +ℤ pos 1 ≤ℤ pos 100000))
unfolding reset_funding_store reserve_transaction attach_provider_transfer apply_provider_status
reserve_wallet_outcome_example = reserve_wallet_outcome 7 9 100000 funded refl

release-reserve_example :
    let reserve = λ (t : FundingStore). (reserve_wallet_for_transfer 7 9 100000 t).1 in
    let release = λ (t : FundingStore). (release_wallet_for_transfer 7 9 100000 t).1 in
    wallet_balance 7 (repeat 2 release (repeat 3 reserve funded)) ≡ wallet_balance 7 funded
unfolding reset_funding_store reserve_transaction attach_provider_transfer apply_provider_status
    reserve_wallet_for_transfer wallet_balance ◌+ℤ◌ ◌-ℤ◌
release-reserve_example = release-reserve 7 9 100000 2 1 funded refl refl refl

abbrev asked_again : FundingRequest
asked_again = record request { id = 2; amount = 1 }

reserve_transaction_replay_example :
    let (_, s1) = reserve_transaction 10 request reset_funding_store in
    (r : Reservation) × ((reserve_transaction 10 request reset_funding_store).0 ≡ ok r)
    × (reserve_transaction 15 asked_again s1
        ≡ (ok (record { reserved = r.reserved; created = false }), s1))
unfolding reset_funding_store
reserve_transaction_replay_example =
    reserve_transaction_replay 10 15 request asked_again reset_funding_store refl refl refl

abbrev source : FundingSourceRecord
source = record {
  id = 3;
  user_id = 7;
  provider_customer_id = 1;
  provider_funding_source_id = 2;
  provider_funding_source_url = 4;
  name = 5;
  bank_name = none;
  last_four = 6 ∷ [];
  bank_account_type = 8;
  status = verified;
  is_default = false;
  micro_deposits_initiated_at = none;
  verification_attempts = 0;
  verification_failure_code = none;
  removed_at = none;
  created_at = 0;
  updated_at = 0;
}

abbrev with_sources : FundingStore
with_sources = record {
  customers = [];
  sources = (3, source) ∷ (4, record source { id = 4; is_default = true }) ∷ [];
  transactions = [];
  webhook_events = [];
  ledger_references = [];
  wallet_balances = [];
}

set_default_source_unique_example :
    (x' : FundingSourceRecord) × (get 4 (set_default_source 90 7 3 with_sources).1.sources
      ≡ some x')
    × (x' ≡ record source { id = 4; is_default = false; updated_at = 90 })
unfolding set_default_source
set_default_source_unique_example = set_default_source_unique 90 7 3 4 with_sources refl refl

reserve_webhook_completed_example :
    let s1 = (reserve_webhook 70 71 "customer_transfer_completed" 73 with_sources).1 in
    let s2 = (complete_webhook 70 s1).1 in
    reserve_webhook 75 71 "customer_transfer_completed" 73 s2
    ≡ (ok (record { duplicate = true; event_id = 70 }), s2)
unfolding reserve_webhook
reserve_webhook_completed_example =
    reserve_webhook_completed 70 75 71 "customer_transfer_completed" 73 with_sources
      {r = record { duplicate = false; event_id = 70 }} refl refl

reserve_webhook_failed_example :
    let s1 = (reserve_webhook 70 71 "customer_transfer_completed" 73 with_sources).1 in
    let s2 = (fail_webhook 70 other_error s1).1 in
    (reserve_webhook 75 71 "customer_transfer_completed" 73 s2).0
    ≡ ok (record { duplicate = false; event_id = 70 })
unfolding reserve_webhook
reserve_webhook_failed_example =
    reserve_webhook_failed 70 75 71 "customer_transfer_completed" 73 other_error with_sources
      {r = record { duplicate = false; event_id = 70 }} refl refl

reserve_webhook_conflict_example :
    let s1 = (reserve_webhook 70 71 "customer_transfer_completed" 73 with_sources).1 in
    reserve_webhook 75 71 "customer_transfer_completed" 74 s1 ≡ (err webhook_event_conflict, s1)
unfolding reserve_webhook
reserve_webhook_conflict_example =
    reserve_webhook_conflict 70 75 71 "customer_transfer_completed" 73 74 with_sources
      {r = record { duplicate = false; event_id = 70 }} refl refl (ground arith)
