-- ===== src/Funding/ServiceTests.antt =====
-- Runs of `FundingService` (apps/api/src/funding/service.ts) with a provider of the tests.

use ticash.Prelude.{◌≤◌, ◌≡◌, refl, true, false, none, some, [], ◌∷◌, ok, err}
use ticash.Funding.Types.{
  FundingSourceRecord, verified, unverified, unknown_provider_status, other_error,
  micro_deposit_attempts_exceeded,
}
use ticash.Funding.Repository.{
  get_source, reserve_transaction, attach_provider_transfer, get_transaction_by_provider_id,
  update_source,
}
use ticash.Funding.Settlement.{apply_provider_status}
use ticash.Funding.Webhooks.{reserve_webhook, complete_webhook}
use ticash.Funding.Provider.{
  FundingConfig, FundingEnv, DwollaFundingProvider, DwollaFundingSource, DwollaTransfer,
  ServiceState, sandbox, production_available, map_dwolla_transfer_status, DwollaWebhookEnvelope,
}
use ticash.Funding.Requests.{FundingInput, initiate_funding}
use ticash.Funding.Verification.{verify_micro_deposits}
use ticash.Funding.Notices.{is_transfer_lifecycle_topic, is_source_topic, process_webhook}
use ticash.Funding.Sending.{sends}
use ticash.Funding.Frames.{IsQuiet}
use ticash.Funding.Deliveries.{process_webhook_once}
use ticash.Funding.Sessions.{opened, called, initiate_call, sends-le-one}

abbrev config : FundingConfig
config = record {
  enabled = true;
  environment = sandbox;
  master_funding_source_url = some 50;
  production_enabled = true;
  live_funding_enabled = true;
  approved_for_live_use = true;
}

not_in_production : production_available config ≡ false
unfolding production_available
not_in_production = refl

abbrev remote_source : DwollaFundingSource
remote_source = record {
  id = 2;
  url = 4;
  name = 5;
  bank_name = none;
  bank_account_type = 8;
  status = unverified;
}

abbrev remote_transfer : DwollaTransfer
remote_transfer = record { id = 40; url = 41; status = "Processed"; failure_code = none }

abbrev provider : DwollaFundingProvider
provider = record {
  create_customer = λ _. ok (record { id = 1; url = 1; status = 0 });
  create_funding_source = λ _ _. ok remote_source;
  list_funding_sources = λ _. ok (remote_source ∷ []);
  get_funding_source = λ _. ok remote_source;
  remove_funding_source = λ _. ok remote_source;
  initiate_micro_deposits = λ _. ok tt;
  verify_micro_deposits = λ _ _ _. err other_error;
  initiate_transfer = λ _. ok (record remote_transfer { status = "pending" });
  get_transfer = λ _. ok remote_transfer;
  cancel_transfer = λ _. ok remote_transfer;
}

abbrev env : FundingEnv
env = record {
  config = config;
  provider = some provider;
  audit = λ _ _ _. ok tt;
  on_status_changed = λ _ s. (ok tt, s);
  hash_of = λ source cents transfer. cents;
  parse_url = λ url. ok (record { href = url; segments = [] });
  with_path = λ u _. u.href;
  id_of = λ _. 0;
}

env-IsQuiet : IsQuiet env
env-IsQuiet = record { no_calls = λ _ _. refl; no_fundings = λ _ _. refl; no_events = λ _ _. refl }

abbrev source : FundingSourceRecord
source = record {
  id = 3;
  user_id = 7;
  provider_customer_id = 1;
  provider_funding_source_id = 2;
  provider_funding_source_url = 4;
  name = 5;
  bank_name = none;
  last_four = 6 ∷ 7 ∷ 8 ∷ 9 ∷ [];
  bank_account_type = 8;
  status = verified;
  is_default = true;
  micro_deposits_initiated_at = some 1;
  verification_attempts = 2;
  verification_failure_code = none;
  removed_at = none;
  created_at = 0;
  updated_at = 0;
}

abbrev first_state : ServiceState
first_state = record {
  store = record {
    customers = [];
    sources = (3, source) ∷ (4, record source { id = 4; status = unverified }) ∷ [];
    transactions = [];
    webhook_events = [];
    ledger_references = [];
    wallet_balances = [];
  };
  calls = [];
}

-- 25 dollars.
abbrev input : FundingInput
input = record {
  user_id = 7;
  funding_source_id = 3;
  amount = 250000;
  idempotency_key = 11;
  transfer_id = none;
}

abbrev sent : ServiceState
sent = (initiate_funding env 1 20 input first_state).1

abbrev sent_again : ServiceState
sent_again = (initiate_funding env 2 30 input sent).1

sends-le-one_example : sends 7 11 sent_again.calls ≤ 1
unfolding initiate_funding get_source reserve_transaction attach_provider_transfer
    map_dwolla_transfer_status
sends-le-one_example = sends-le-one 7 11 {s = first_state} {t = sent_again} refl (
    called (called opened env (initiate_call 1 20 input) env-IsQuiet refl refl) env
      (initiate_call 2 30 input) env-IsQuiet refl refl)

one_was_sent : sends 7 11 sent_again.calls ≡ 1
unfolding initiate_funding get_source reserve_transaction attach_provider_transfer
    map_dwolla_transfer_status
one_was_sent = refl

-- The third attempt that the provider refuses is the last one.
third_attempt :
    (verify_micro_deposits env 60 7 4 1 2 first_state).0 ≡ err micro_deposit_attempts_exceeded
unfolding verify_micro_deposits get_source update_source
third_attempt = refl

lifecycle : is_transfer_lifecycle_topic "customer_bank_transfer_completed" ≡ true
unfolding is_transfer_lifecycle_topic
lifecycle = refl

no_lifecycle : is_transfer_lifecycle_topic "customer_transfer_reclaimed" ≡ false
unfolding is_transfer_lifecycle_topic
no_lifecycle = refl

unknown_status : map_dwolla_transfer_status "reclaimed" ≡ err unknown_provider_status
unfolding map_dwolla_transfer_status
unknown_status = refl

abbrev completed_notice : DwollaWebhookEnvelope
completed_notice = record { id = 80; topic = "transfer_completed"; resource_url = some 41 }

abbrev noticed : ServiceState
noticed = (process_webhook env 81 90 completed_notice 82 sent).1

process_webhook_once_example :
    process_webhook env 83 95 completed_notice 82 noticed
    ≡ (ok (record { duplicate = true; ignored = false }), noticed)
unfolding process_webhook reserve_webhook is_source_topic is_transfer_lifecycle_topic
    get_transaction_by_provider_id apply_provider_status complete_webhook initiate_funding
    get_source reserve_transaction attach_provider_transfer map_dwolla_transfer_status
process_webhook_once_example =
    process_webhook_once env env 81 83 90 95 completed_notice 82 sent noticed
      {r = record { duplicate = false; ignored = false }} {p = provider} env-IsQuiet refl refl refl
      refl
