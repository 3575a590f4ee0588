-- ===== src/Funding/OtherCalls.antt =====
-- The calls of `MemoryFundingRepository` (apps/api/src/funding/repository.ts) that are about customers,
-- sources and webhook events: they leave the fundings, the ledger and the wallets as they were.
use ticash.Prelude.{ℕ, ◌≡◌, refl, arith, List, Option-cases, inl, inr}
use Prim.Native.String.{String}
use ticash.Funding.Types.{FundingError, FundingCustomerRecord, FundingSourceRecord, FundingStore}
use ticash.Funding.Holds.{WalletCall}
use ticash.Funding.Repository.{
  save_customer, save_source, update_source, set_default_source, get_source,
}
use ticash.Funding.Webhooks.{reserve_webhook, complete_webhook, fail_webhook}
use ticash.Funding.Conservation.{wallet_balance-same}
use ticash.Funding.Reports.{IsLedgered}

pub data OtherCall (s : FundingStore) : FundingStore → Type 0 where
  customer_saved :
      (uuid : ℕ) (input : FundingCustomerRecord) → OtherCall s (save_customer uuid input s).1
  source_saved :
      (uuid now : ℕ) (input : FundingSourceRecord) → OtherCall s (save_source uuid now input s).1
  source_updated :
      (now user_id id : ℕ) (input : FundingSourceRecord → FundingSourceRecord)
      → OtherCall s (update_source now user_id id input s).1
  default_set : (now user_id id : ℕ) → OtherCall s (set_default_source now user_id id s).1
  webhook_reserved :
      (uuid key : ℕ) (topic : String) (payload_hash : ℕ)
      → OtherCall s (reserve_webhook uuid key topic payload_hash s).1
  webhook_completed : (event_id : ℕ) → OtherCall s (complete_webhook event_id s).1
  webhook_failed :
      (event_id : ℕ) (code : FundingError) → OtherCall s (fail_webhook event_id code s).1

-- The fundings, the ledger and the wallets are the same.
abbrev IsSameMoney : FundingStore → FundingStore → Type 0
IsSameMoney s s' =
    (s'.transactions ≡ s.transactions)
    × (s'.ledger_references ≡ s.ledger_references)
    × (s'.wallet_balances ≡ s.wallet_balances)

OtherCall-IsSameMoney : {s s' : FundingStore} → OtherCall s s' → IsSameMoney s s'
unfolding save_customer save_source update_source set_default_source reserve_webhook
    complete_webhook fail_webhook
OtherCall-IsSameMoney (customer_saved uuid input) = (refl, refl, refl)
OtherCall-IsSameMoney (source_saved uuid now input) = (refl, refl, refl)
OtherCall-IsSameMoney {s} (source_updated now user_id id input) =
    elim (Option-cases (get_source user_id id s)) [
      | inl missing ↦ rw (missing, update_source) (refl, refl, refl)
      | inr (x, found) ↦ rw (found, update_source) (refl, refl, refl)
    ]
OtherCall-IsSameMoney {s} (default_set now user_id id) =
    elim (Option-cases (get_source user_id id s)) [
      | inl missing ↦ rw (missing, set_default_source) (refl, refl, refl)
      | inr (x, found) ↦ rw (found, set_default_source) (refl, refl, refl)
    ]
OtherCall-IsSameMoney (webhook_reserved uuid key topic payload_hash) =
    (ground arith, ground arith, ground arith)
OtherCall-IsSameMoney (webhook_completed event_id) = (refl, refl, refl)
OtherCall-IsSameMoney (webhook_failed event_id code) = (refl, refl, refl)

-- So they keep what is known of the wallets.
pub OtherCall-IsLedgered :
    (log : List WalletCall) {s s' : FundingStore}
    → OtherCall s s'
    → IsLedgered log s
    → IsLedgered log s'
OtherCall-IsLedgered log {s} {s'} c v =
    let (t, r, w) = OtherCall-IsSameMoney c in
    record {
      distinct = rw t v.distinct;
      reversals_show = rw (t, r) v.reversals_show;
      references_known = rw (t, r) v.references_known;
      tracked = rw r v.tracked;
      balanced = λ u. rw (wallet_balance-same u s' s w, t, r) (v.balanced u);
    }
