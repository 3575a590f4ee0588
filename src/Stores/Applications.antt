-- ===== src/Stores/Applications.antt =====
-- The application for a store (`apply` of apps/api/src/flupflap/stores.ts). The input has passed the zod
-- schema of store-policy.ts.
use ticash.Prelude.{ℕ, Bool, false, not, ◌&&◌, Option, none, some}
use ticash.Prelude.Lists.{find}
use ticash.Prelude.Maps.{get, put, has, values}
use ticash.Prelude.Int.{pos}
use ticash.Prelude.Actions.{or_raise, raise_if, ◌>>=◌, ◌>>◌, modify, current, pure}
use ticash.Stores.Types
use ticash.Stores.Types.{Store, store_pending, Customer, fail, Method}
use ticash.Stores.Ledger.{atomic}
use ticash.Stores.Deposits.{is_some, own_store}

abbrev pub may_apply : Option Customer → Bool
may_apply none = false
may_apply (some c) = c.is_active && not (is_some c.guest_expires_at)

abbrev pub new_store : Bool → ℕ → ℕ → ℕ → Store
new_store test_mode uuid customer country = record {
  id = uuid;
  customer_id = customer;
  test_mode = test_mode;
  country = country;
  status = store_pending;
  commission_bps = 2000;
  balance_cents = pos 0;
}

-- The `create` of an `upsert`, under a new id.
abbrev pub create_store : ℕ → Store → Method Store
create_store uuid store = do
  db ← current
  raise_if (has uuid db.stores) (fail Types.unique_violation 500)
  modify (λ s. record s { stores = put uuid store s.stores })
  pure store

abbrev pub find_or_create : ℕ → Store → Option Store → Method Store
find_or_create uuid store (some found) = pure found
find_or_create uuid store none = create_store uuid store

-- `apply`; of the input, the country is what the other operations read.
unfoldable pub apply : Bool → ℕ → Option ℕ → ℕ → Method Store
apply test_mode uuid owner country = do
  customer_id ← or_raise owner (fail Types.store_account_required 403)
  atomic (do
    db ← current
    raise_if (not (may_apply (get customer_id db.customers)))
        (fail Types.registered_account_required 403)
    find_or_create uuid (new_store test_mode uuid customer_id country)
        (find (own_store test_mode customer_id) (values db.stores)))
