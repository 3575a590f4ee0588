-- ===== src/Stores/Tests.antt =====
-- A store of the tests, and its calls of `FlupFlapStores` (apps/api/src/flupflap/stores.ts).
use ticash.Prelude.{
  ◌≡◌, ◌≤◌, ◌<◌, ◌↔◌, ◌*◌, ◌+◌, refl, arith, true, false, some, none, List, [], ◌∷◌, ok,
}
use ticash.Prelude.Maps.{get}
use ticash.Prelude.Int.{pos, ◌+ℤ◌, ◌-ℤ◌}
use ticash.Stores.Types.{Order, held, Store, active, Recharge, recharge_failed, pending, Database}
use ticash.Prelude.Doubles.{double, floor_quotient}
use ticash.Stores.Policy.{store_commission, cents, max_safe_integer}
use ticash.Stores.Ledger.{movement, journal}
use ticash.Stores.Deposits.{request_funding, review_funding}
use ticash.Stores.Orders.{authorize, settle}
use ticash.Stores.Settlements.{Consistent}
use ticash.Stores.Sellers.{store_commission_iff}
use ticash.Stores.History.{
  Call, request_funding_call, review_funding_call, authorize_call, perform_all,
  perform_all-Consistent,
}
use ticash.Stores.Payouts.{paid, settled_status, settle_pays}
use ticash.Stores.Once.{settle_again}

abbrev corner_store : Store
corner_store = record {
  id = 1;
  customer_id = 7;
  test_mode = false;
  country = 509;
  status = active;
  commission_bps = 4000;
  balance_cents = pos 0;
}

-- $10.00 and the fee of 17 percent, that the provider did not deliver.
abbrev failed_recharge : Recharge
failed_recharge = record {
  id = 5;
  customer_id = some 7;
  is_store_balance = true;
  test_mode = false;
  quote_id = 3;
  status = recharge_failed;
  payment_status = pending;
  payment_authorization_id = none;
  payment_started_at = none;
  payment_recovery_code = none;
  total_charge_cents = 1170;
  fee_charge_cents = 170;
}

abbrev opening : Database
opening = record {
  customers =
      (7, record { is_active = true; guest_expires_at = none; recharge_restricted = false }) ∷ [];
  stores = (1, corner_store) ∷ [];
  entries = [];
  orders = [];
  funding = [];
  journals = [];
  recharges = (5, failed_recharge) ∷ [];
  quotes = (3, 2000) ∷ [];
  promoted_quotes = [];
  audit_log = [];
}

opening-Consistent : Consistent opening
unfolding ◌+ℤ◌
opening-Consistent = record {
  cash = refl;
  holds = refl;
  balanced = tt;
  keyed = λ id store g. ground arith;
  solvent = λ id store g. ground arith;
  fair = λ id order g. ground arith;
}

-- A deposit of $50.00 that is approved, and the recharge's hold.
abbrev purchase_calls : List Call
purchase_calls =
    request_funding_call 11 (some 7) 5000 21
    ∷ review_funding_call 1000 99 11 true
    ∷ authorize_call 1500 (some 7) failed_recharge
    ∷ []

abbrev after_purchase : Database
after_purchase = perform_all (509 ∷ []) false purchase_calls opening

after_purchase_balance :
    get 1 after_purchase.stores ≡ some (record corner_store { balance_cents = pos 3830 })
unfolding request_funding review_funding authorize movement journal store_commission cents double
    floor_quotient ◌+ℤ◌ ◌-ℤ◌
after_purchase_balance = refl

perform_all-Consistent_example : Consistent (perform_all (509 ∷ []) false purchase_calls opening)
perform_all-Consistent_example =
    perform_all-Consistent (509 ∷ []) false purchase_calls opening opening-Consistent

refund_returns :
    settle false true failed_recharge after_purchase
    ≡ (ok tt, (settle false true failed_recharge after_purchase).1)
unfolding settle request_funding review_funding authorize movement journal store_commission cents
    double floor_quotient ◌+ℤ◌ ◌-ℤ◌
refund_returns = refl

settle_again_example :
    settle false true failed_recharge (settle false true failed_recharge after_purchase).1
    ≡ (ok tt, (settle false true failed_recharge after_purchase).1)
settle_again_example =
    settle_again false true failed_recharge after_purchase
      (settle false true failed_recharge after_purchase).1 refund_returns

refund_restores :
    get 1 (settle false true failed_recharge after_purchase).1.stores
    ≡ some (record corner_store { balance_cents = pos 5000 })
unfolding settle request_funding review_funding authorize movement journal store_commission cents
    double floor_quotient ◌+ℤ◌ ◌-ℤ◌
refund_restores = refl

share_of_170 : store_commission 170 4000 ≡ ok 68
unfolding store_commission double floor_quotient
share_of_170 = refl

-- The product of this fee is rounded.
share_of_largest : store_commission 9007199254740991 4999 ≡ ok 4502698907445022
unfolding store_commission double floor_quotient
share_of_largest = refl

store_commission_iff_example : (store_commission 170 4000 ≡ ok 68) ↔ (
    (170 ≤ max_safe_integer)
    × (4000 ≤ 5000)
    × (10000 * 68 ≤ 170 * 4000 + 5000)
    × (170 * 4000 + 5000 < 10000 * 68 + 10000))
store_commission_iff_example = store_commission_iff 170 4000 68 (ground arith)

abbrev held_order : Order
held_order = record {
  store_id = 1;
  total_cents = 1170;
  fee_cents = 170;
  commission_bps = 4000;
  commission_cents = 68;
  status = held;
}

abbrev open_order : Database
open_order = record opening {
  stores = (1, record corner_store { balance_cents = pos 3830 }) ∷ [];
  orders = (5, held_order) ∷ [];
}

settle_pays_example :
    let (r, s') = settle false true failed_recharge open_order in
    (r ≡ ok tt)
    × (get 1 s'.stores
        ≡ some (record corner_store { balance_cents = pos 3830 +ℤ paid true held_order }))
    × (get 5 s'.orders ≡ some (record held_order { status = settled_status true }))
unfolding ◌+ℤ◌
settle_pays_example =
    settle_pays false true failed_recharge failed_recharge held_order
      (record corner_store { balance_cents = pos 3830 }) open_order refl refl refl refl refl refl
      refl refl refl
