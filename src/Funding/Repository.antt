-- ===== src/Funding/Repository.antt =====
-- `MemoryFundingRepository` of apps/api/src/funding/repository.ts. A method takes the store and
-- gives the store back; `randomUUID()` and `nowIso()` are the arguments `uuid` and `now`.
use ticash.Prelude.{
  ℕ, Bool, true, false, not, ◌&&◌, Option, none, some, ◌==◌, if◌then◌else◌, ok, err, or_throw, List,
  [], ◌∷◌,
}
use ticash.Prelude.Lists.{find, filter, any}
use ticash.Prelude.Maps.{Map, get, put, values}
use ticash.Prelude.Actions.{Action}
use ticash.Funding.Types.{
  FundingStatus, pending, processing, FundingSourceStatus, removed, FundingError,
  funding_source_not_found, funding_not_found, FundingCustomerRecord, FundingSourceRecord,
  FundingTransactionRecord, FundingStore,
}

abbrev pub Method : Type 0 → Type 0
Method A = Action FundingStore FundingError A

unfoldable pub reset_funding_store : FundingStore
reset_funding_store = record {
  customers = [];
  sources = [];
  transactions = [];
  webhook_events = [];
  ledger_references = [];
  wallet_balances = [];
}

unfoldable pub get_customer : ℕ → FundingStore → Option FundingCustomerRecord
get_customer user_id s = get user_id s.customers

abbrev customer_id : ℕ → Option FundingCustomerRecord → ℕ
customer_id uuid none = uuid
customer_id uuid (some c) = c.id

-- The `id` of the input is not read.
unfoldable pub save_customer : ℕ → FundingCustomerRecord → Method FundingCustomerRecord
save_customer uuid input s =
    let saved = record input { id = customer_id uuid (get input.user_id s.customers) } in
    (ok saved, record s { customers = put input.user_id saved s.customers })

abbrev pub is_removed : FundingSourceStatus → Bool
is_removed removed = true
is_removed _ = false

unfoldable pub list_sources : ℕ → FundingStore → List FundingSourceRecord
list_sources user_id s =
    filter (λ x. x.user_id == user_id && not (is_removed x.status)) (values s.sources)

abbrev own_source : ℕ → Option FundingSourceRecord → Option FundingSourceRecord
own_source user_id none = none
own_source user_id (some x) = if x.user_id == user_id then some x else none

unfoldable pub get_source : ℕ → ℕ → FundingStore → Option FundingSourceRecord
get_source user_id id s = own_source user_id (get id s.sources)

unfoldable pub get_source_by_provider_id : ℕ → FundingStore → Option FundingSourceRecord
get_source_by_provider_id provider_id s =
    find (λ x. x.provider_funding_source_id == provider_id) (values s.sources)

abbrev saved_source : ℕ → ℕ → Option FundingSourceRecord → FundingSourceRecord → FundingSourceRecord
saved_source uuid now none input = record input { id = uuid; created_at = now; updated_at = now }
saved_source uuid now (some x) input = record input {
  id = x.id;
  created_at = x.created_at;
  updated_at = now;
}

-- The `id`, `created_at` and `updated_at` of the input are not read.
unfoldable pub save_source : ℕ → ℕ → FundingSourceRecord → Method FundingSourceRecord
unfolding get_source_by_provider_id
save_source uuid now input s =
    let old = get_source_by_provider_id input.provider_funding_source_id s in
    let saved = saved_source uuid now old input in
    (ok saved, record s { sources = put saved.id saved s.sources })

-- The partial update is the function that it is on records.
unfoldable pub update_source :
    ℕ → ℕ → ℕ → (FundingSourceRecord → FundingSourceRecord) → Method FundingSourceRecord
unfolding get_source
update_source now user_id id input s = elim (get_source user_id id s) [
  | none ↦ (err funding_source_not_found, s)
  | some x ↦
      let updated = record (input x) { updated_at = now } in
      (ok updated, record s { sources = put id updated s.sources })
]

-- The loop over the map sets each of the user's sources at its own key.
abbrev pub mark_source : ℕ → ℕ → ℕ → ℕ → FundingSourceRecord → FundingSourceRecord
mark_source now user_id id k x =
    if x.user_id == user_id then record x { is_default = k == id; updated_at = now } else x

abbrev pub mark_default : ℕ → ℕ → ℕ → Map FundingSourceRecord → Map FundingSourceRecord
mark_default now user_id id [] = []
mark_default now user_id id ((k, x) ∷ m) =
    (k, mark_source now user_id id k x) ∷ mark_default now user_id id m

unfoldable pub set_default_source : ℕ → ℕ → ℕ → Method FundingSourceRecord
unfolding get_source
set_default_source now user_id id s = elim (get_source user_id id s) [
  | none ↦ (err funding_source_not_found, s)
  | some _ ↦
      let s' = record s { sources = mark_default now user_id id s.sources } in
      (or_throw (get id s'.sources) funding_source_not_found, s')
]

abbrev pub is_active : FundingStatus → Bool
is_active pending = true
is_active processing = true
is_active _ = false

unfoldable pub has_active_transactions : ℕ → FundingStore → Bool
has_active_transactions source_id s =
    any (λ t. t.funding_source_id == source_id && is_active t.status) (values s.transactions)

pub record Reservation : Type 0 where
  pub reserved : FundingTransactionRecord
  pub created : Bool

pub record FundingRequest : Type 0 where
  pub id : ℕ
  pub user_id : ℕ
  pub funding_source_id : ℕ
  pub transfer_id : Option ℕ
  pub amount : ℕ
  pub idempotency_key : ℕ
  pub request_hash : ℕ

abbrev pub new_transaction : ℕ → FundingRequest → FundingTransactionRecord
new_transaction now input = record {
  id = input.id;
  user_id = input.user_id;
  funding_source_id = input.funding_source_id;
  transfer_id = input.transfer_id;
  amount = input.amount;
  status = pending;
  idempotency_key = input.idempotency_key;
  request_hash = input.request_hash;
  provider_transfer_id = none;
  provider_transfer_url = none;
  failure_code = none;
  created_at = now;
  updated_at = now;
}

-- The request was made before, under the same user and idempotency key.
abbrev pub is_replay : FundingRequest → FundingTransactionRecord → Bool
is_replay input t = t.user_id == input.user_id && t.idempotency_key == input.idempotency_key

unfoldable pub reserve_transaction : ℕ → FundingRequest → Method Reservation
reserve_transaction now input s = elim (find (is_replay input) (values s.transactions)) [
  | some t ↦ (ok (record { reserved = t; created = false }), s)
  | none ↦
      let t = new_transaction now input in
      (
        ok (record { reserved = t; created = true }),
        record s { transactions = put t.id t s.transactions },
      )
]

unfoldable pub attach_provider_transfer :
    ℕ → ℕ → ℕ → ℕ → FundingStatus → Method FundingTransactionRecord
attach_provider_transfer now id transfer_id url status s = elim (get id s.transactions) [
  | none ↦ (err funding_not_found, s)
  | some t ↦
      let updated = record t {
        provider_transfer_id = some transfer_id;
        provider_transfer_url = some url;
        status = status;
        updated_at = now;
      } in
      (ok updated, record s { transactions = put id updated s.transactions })
]

abbrev own_transaction : ℕ → Option FundingTransactionRecord → Option FundingTransactionRecord
own_transaction user_id none = none
own_transaction user_id (some t) = if t.user_id == user_id then some t else none

unfoldable pub get_transaction : ℕ → ℕ → FundingStore → Option FundingTransactionRecord
get_transaction user_id id s = own_transaction user_id (get id s.transactions)

abbrev has_provider_id : ℕ → FundingTransactionRecord → Bool
has_provider_id transfer_id t = elim t.provider_transfer_id [
  | none ↦ false
  | some i ↦ i == transfer_id
]

unfoldable pub get_transaction_by_provider_id : ℕ → FundingStore → Option FundingTransactionRecord
get_transaction_by_provider_id transfer_id s =
    find (has_provider_id transfer_id) (values s.transactions)
