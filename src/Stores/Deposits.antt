-- ===== src/Stores/Deposits.antt =====
-- The operations of `FlupFlapStores` (apps/api/src/flupflap/stores.ts) on a store's money: deposits,
-- returns, and the hold, the delivery and the refund of an order. The inputs have passed the zod
-- schemas of store-policy.ts.
use ticash.Prelude.{
  ℕ, Bool, true, false, not, ◌&&◌, ◌||◌, Option, none, some, List, [], ◌∷◌, ◌==◌, if◌then◌else◌,
}
use ticash.Prelude.Lists.{find, includes}
use ticash.Prelude.Maps.{get, put, values}
use ticash.Prelude.Int.{ℤ, pos, negsuc}
use ticash.Prelude.Actions.{or_raise, raise_if, ◌>>=◌, ◌>>◌, modify, current, when, pure}
use ticash.Stores.Types
use ticash.Stores.Types.{
  Store, StoreStatus, active, Customer, deposit, FundingRequest, RequestStatus, request_pending,
  approved, request_rejected, funding_clearing, balance, store_entry, fail, Method,
}
use ticash.Stores.Ledger.{atomic, lock, movement, journal, neg}

abbrev pub same_bool : Bool → Bool → Bool
same_bool true b = b
same_bool false b = not b

abbrev pub same_int : ℤ → ℤ → Bool
same_int (pos m) (pos n) = m == n
same_int (negsuc m) (negsuc n) = m == n
same_int _ _ = false

abbrev pub same_id : Option ℕ → ℕ → Bool
same_id none j = false
same_id (some i) j = i == j

abbrev pub is_some : {A : Type 0} → Option A → Bool
is_some none = false
is_some (some _) = true

abbrev pub is_store_active : StoreStatus → Bool
is_store_active active = true
is_store_active _ = false

-- The store of a customer in the class's mode.
abbrev pub own_store : Bool → ℕ → Store → Bool
own_store test_mode customer store =
    store.customer_id == customer && same_bool store.test_mode test_mode

abbrev pub may_sell : Option Customer → Bool
may_sell none = false
may_sell (some c) = c.is_active && not (is_some c.guest_expires_at || c.recharge_restricted)

abbrev pub is_selling : List ℕ → Store → Bool
is_selling countries store = is_store_active store.status && includes countries store.country

abbrev pub audit : ℕ → ℕ → Method (Unit {0})
audit actor entity =
    modify
      (λ s. record s { audit_log = record { actor = actor; entity_id = entity } ∷ s.audit_log })

abbrev pub new_request : ℕ → ℕ → ℕ → ℕ → FundingRequest
new_request uuid store_id amount_cents reference = record {
  id = uuid;
  store_id = store_id;
  amount_cents = amount_cents;
  reference = reference;
  status = request_pending;
  reviewed_by = none;
  reviewed_at = none;
}

abbrev pub set_commission : Option ℕ → Store → Store
set_commission none store = store
set_commission (some bps) store = record store { commission_bps = bps }

abbrev pub is_customer_active : Option Customer → Bool
is_customer_active none = false
is_customer_active (some c) = c.is_active

abbrev pub is_pending_request : RequestStatus → Bool
is_pending_request request_pending = true
is_pending_request _ = false

abbrev pub is_outcome : Bool → RequestStatus → Bool
is_outcome true approved = true
is_outcome false request_rejected = true
is_outcome _ _ = false

abbrev pub find_request : ℕ → Method FundingRequest
find_request id s = or_raise (get id s.funding) (fail Types.row_not_found 500) s

-- A request that was reviewed before.
abbrev pub reviewed_again : Bool → FundingRequest → Method FundingRequest
reviewed_again approve request = do
  raise_if (not (is_outcome approve request.status)) (fail Types.deposit_already_reviewed 409)
  pure request

-- The request that stands under the reference, or a new one.
abbrev pub answer_request : ℕ → Store → ℕ → ℕ → Option FundingRequest → Method FundingRequest
answer_request uuid store amount_cents reference (some r) = do
  raise_if (not (r.store_id == store.id && r.amount_cents == amount_cents))
      (fail Types.deposit_reference_already_used 409)
  pure r
answer_request uuid store amount_cents reference none = do
  let r = new_request uuid store.id amount_cents reference
  modify (λ s. record s { funding = put uuid r s.funding })
  pure r

-- The environment of the class: the launched countries and `testMode`.
module _ (countries : List ℕ) (test_mode : Bool) where
  -- `active`: the owner is the FlupFlap customer, if it is one.
  abbrev pub selling_store : Option ℕ → Method Store
  selling_store owner = do
    customer_id ← or_raise owner (fail Types.store_account_required 403)
    db ← current
    raise_if (not (may_sell (get customer_id db.customers)))
        (fail Types.store_account_restricted 403)
    store ←
        or_raise (find (own_store test_mode customer_id) (values db.stores))
          (fail Types.store_account_required 403)
    locked ← lock store.id
    raise_if (not (is_selling countries locked)) (fail Types.store_not_active 403)
    pure locked

  unfoldable pub request_funding : ℕ → Option ℕ → ℕ → ℕ → Method FundingRequest
  request_funding uuid owner amount_cents reference = atomic (do
    store ← selling_store owner
    db ← current
    answer_request uuid store amount_cents reference
        (find (λ (r : FundingRequest). r.reference == reference) (values db.funding)))

  unfoldable pub review : ℕ → ℕ → StoreStatus → Option ℕ → Method Store
  review actor id status commission_bps = atomic (do
    store ← lock id
    raise_if (not (same_bool store.test_mode test_mode)) (fail Types.store_environment_mismatch 409)
    raise_if (is_store_active status && not (includes countries store.country))
        (fail Types.store_country_not_enabled 409)
    let updated = record (set_commission commission_bps store) { status = status }
    modify (λ s. record s { stores = put id updated s.stores })
    audit actor id
    pure updated)

  -- What an approval books, after its guards.
  abbrev pub approve_deposit : ℕ → FundingRequest → Store → Method (Unit {0})
  approve_deposit id request store = do
    db ← current
    raise_if (not (is_customer_active (get store.customer_id db.customers)))
        (fail Types.store_account_restricted 409)
    raise_if (not (is_selling countries store)) (fail Types.store_not_active 409)
    movement store.id (deposit id) (pos request.amount_cents)
    journal test_mode (store_entry (deposit id))
        ((funding_clearing, pos request.amount_cents) ∷ (balance, neg request.amount_cents) ∷ [])

  abbrev pub review_pending : ℕ → ℕ → ℕ → Bool → FundingRequest → Store → Method FundingRequest
  review_pending now actor id approve request store = do
    raise_if (not (same_bool store.test_mode test_mode)) (fail Types.store_environment_mismatch 409)
    when approve (approve_deposit id request store)
    let updated = record request {
      status = if approve then approved else request_rejected;
      reviewed_by = some actor;
      reviewed_at = some now;
    }
    modify (λ s. record s { funding = put id updated s.funding })
    audit actor id
    pure updated

  unfoldable pub review_funding : ℕ → ℕ → ℕ → Bool → Method FundingRequest
  review_funding now actor id approve = atomic (do
    initial ← find_request id
    store ← lock initial.store_id
    request ← find_request id
    if is_pending_request request.status
        then review_pending now actor id approve request store
        else reviewed_again approve request)
