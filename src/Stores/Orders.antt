-- ===== src/Stores/Orders.antt =====
-- The orders of `FlupFlapStores` (apps/api/src/flupflap/stores.ts): the hold of a recharge's price,
-- its delivery or refund, and a balance that was returned outside the program.
use ticash.Prelude.{
  ℕ, Bool, true, false, not, ◌&&◌, ◌||◌, Option, none, some, List, [], ◌∷◌, ◌==◌, if◌then◌else◌,
  ltb, leb,
}
use ticash.Prelude.Lists.{find, includes}
use ticash.Prelude.Maps.{get, put, has}
use ticash.Prelude.Int.{ℤ, pos, ◌-ℤ◌, ltb_ℤ}
use ticash.Prelude.Actions.{or_raise, raise_if, ◌>>=◌, ◌>>◌, modify, current, pure, lift}
use ticash.Stores.Types
use ticash.Stores.Types.{
  Store, Entry, EntryReference, same_entry, purchase, refund, commission, balance_return, Order,
  OrderStatus, held, delivered, refunded, Account, funding_clearing, balance, held_account,
  provider_settlement, fee_revenue, store_entry, hold, delivery, Recharge, RechargeStatus,
  recharge_delivered, recharge_failed, recharge_refunded, PaymentStatus, pending, captured,
  payment_refunded, fail, Method,
}
use ticash.Stores.Policy.{store_commission, cents}
use ticash.Stores.Ledger.{atomic, lock, movement, journal, neg}
use ticash.Stores.Deposits.{same_bool, same_int, same_id, selling_store, audit}

abbrev pub find_entry : EntryReference → List Entry → Option Entry
find_entry r = find (λ e. same_entry e.reference r)

-- The guard of `authorize` and `settle` on the record that they are given.
abbrev pub is_store_payment : Bool → Recharge → Bool
is_store_payment test_mode r = r.is_store_balance && same_bool r.test_mode test_mode

abbrev pub is_pending : PaymentStatus → Bool
is_pending pending = true
is_pending _ = false

abbrev is_delivered : RechargeStatus → Bool
is_delivered recharge_delivered = true
is_delivered _ = false

abbrev is_failed_or_refunded : RechargeStatus → Bool
is_failed_or_refunded recharge_failed = true
is_failed_or_refunded recharge_refunded = true
is_failed_or_refunded _ = false

abbrev pub find_recharge : ℕ → Method Recharge
find_recharge id s = or_raise (get id s.recharges) (fail Types.row_not_found 500) s

abbrev pub find_order : ℕ → Method Order
find_order id s = or_raise (get id s.orders) (fail Types.row_not_found 500) s

abbrev pub put_order : ℕ → Order → Method (Unit {0})
put_order id order = modify (λ s. record s { orders = put id order s.orders })

abbrev pub put_recharge : ℕ → Recharge → Method (Unit {0})
put_recharge id r = modify (λ s. record s { recharges = put id r s.recharges })

-- The return that stands under the reference, or a new one.
abbrev pub book_return : Bool → ℕ → ℕ → ℕ → ℕ → Store → Option Entry → Method Entry
book_return test_mode actor id amount_cents reference store (some e) = do
  raise_if (not (e.store_id == id && same_int e.amount_cents (neg amount_cents)))
      (fail Types.balance_return_reference_conflict 409)
  pure e
book_return test_mode actor id amount_cents reference store none = do
  raise_if (ltb_ℤ store.balance_cents (pos amount_cents))
      (fail Types.store_insufficient_balance 409)
  movement id (balance_return reference) (neg amount_cents)
  journal test_mode (store_entry (balance_return reference))
      ((balance, pos amount_cents) ∷ (funding_clearing, neg amount_cents) ∷ [])
  audit actor id
  after ← current
  or_raise (find_entry (balance_return reference) after.entries) (fail Types.row_not_found 500)

-- Records a return that was completed outside the program.
unfoldable pub record_balance_return : Bool → ℕ → ℕ → ℕ → ℕ → Method Entry
record_balance_return test_mode actor id amount_cents reference = atomic (do
  store ← lock id
  raise_if (not (same_bool store.test_mode test_mode)) (fail Types.store_environment_mismatch 409)
  db ← current
  book_return test_mode actor id amount_cents reference store
      (find_entry (balance_return reference) db.entries))

abbrev pub book_hold : Bool → ℕ → ℕ → Order → Recharge → Method (Unit {0})
book_hold test_mode now id order recharge = do
  put_order id order
  movement order.store_id (purchase id) (neg order.total_cents)
  journal test_mode (hold id)
      ((balance, pos order.total_cents) ∷ (held_account, neg order.total_cents) ∷ [])
  put_recharge id (record recharge {
    payment_status = captured;
    payment_authorization_id = some id;
    payment_started_at = some now;
  })

-- What `authorize` does for a recharge that has no order yet.
abbrev pub hold_order : List ℕ → Bool → ℕ → ℕ → Store → Method (Unit {0})
hold_order countries test_mode now id store = do
  recharge ← find_recharge id
  raise_if
      (not (
        same_id recharge.customer_id store.customer_id
        && is_store_payment test_mode recharge
        && is_pending recharge.payment_status))
      (fail Types.store_payment_mismatch 409)
  db ← current
  expires_at ← or_raise (get recharge.quote_id db.quotes) (fail Types.row_not_found 500)
  raise_if (leb expires_at now) (fail Types.topup_quote_expired 409)
  raise_if (includes db.promoted_quotes recharge.quote_id)
      (fail Types.store_promotion_not_allowed 409)
  total ← lift (cents recharge.total_charge_cents)
  fee ← lift (cents recharge.fee_charge_cents)
  raise_if (ltb total fee || total == 0) (fail Types.invalid_store_amount 409)
  raise_if (ltb_ℤ store.balance_cents (pos total)) (fail Types.store_insufficient_balance 409)
  earned ← lift (store_commission fee store.commission_bps)
  book_hold test_mode now id
      (record {
        store_id = store.id;
        total_cents = total;
        fee_cents = fee;
        commission_bps = store.commission_bps;
        commission_cents = earned;
        status = held;
      })
      recharge

unfoldable pub authorize : List ℕ → Bool → ℕ → Option ℕ → Recharge → Method (Unit {0})
authorize countries test_mode now owner given = do
  raise_if (not (is_store_payment test_mode given)) (fail Types.store_payment_mismatch 409)
  atomic (do
    store ← selling_store countries test_mode owner
    db ← current
    if has given.id db.orders then pure tt else hold_order countries test_mode now given.id store)

-- `order.totalCents - order.feeCents` and `order.feeCents - order.commissionCents`
abbrev pub principal_of : Order → ℤ
principal_of order = pos order.total_cents -ℤ pos order.fee_cents

abbrev pub net_fee_of : Order → ℤ
net_fee_of order = pos order.fee_cents -ℤ pos order.commission_cents

-- What a refund pays back: a delivered order's commission was paid out already.
abbrev pub refund_amount : OrderStatus → Order → ℤ
refund_amount delivered order = pos order.total_cents -ℤ pos order.commission_cents
refund_amount _ order = pos order.total_cents

abbrev pub refund_lines : OrderStatus → Order → List (Account × ℤ)
refund_lines delivered order =
    (provider_settlement, principal_of order)
    ∷ (fee_revenue, net_fee_of order)
    ∷ (balance, pos 0 -ℤ refund_amount delivered order)
    ∷ []
refund_lines status order =
    (held_account, refund_amount status order) ∷ (balance, pos 0 -ℤ refund_amount status order) ∷ []

abbrev pub refund_order : Bool → ℕ → Order → Recharge → Method (Unit {0})
refund_order test_mode id order recharge = do
  movement order.store_id (refund id) (refund_amount order.status order)
  journal test_mode (store_entry (refund id)) (refund_lines order.status order)
  put_recharge id
      (record recharge { payment_status = payment_refunded; payment_recovery_code = none })
  put_order id (record order { status = refunded })

abbrev pub delivery_lines : Order → List (Account × ℤ)
delivery_lines order =
    (held_account, pos order.total_cents)
    ∷ (provider_settlement, pos 0 -ℤ principal_of order)
    ∷ (fee_revenue, pos 0 -ℤ net_fee_of order)
    ∷ (balance, neg order.commission_cents)
    ∷ []

abbrev pub deliver_order : Bool → ℕ → Order → Method (Unit {0})
deliver_order test_mode id order = do
  movement order.store_id (commission id) (pos order.commission_cents)
  journal test_mode (delivery id) (delivery_lines order)
  put_order id (record order { status = delivered })

-- `order.status === 'REFUNDED' || !refund && order.status === 'DELIVERED'`
abbrev pub is_settled : Bool → OrderStatus → Bool
is_settled is_refund refunded = true
is_settled is_refund delivered = not is_refund
is_settled is_refund held = false

abbrev pub is_confirmed : Bool → RechargeStatus → Bool
is_confirmed true status = is_failed_or_refunded status
is_confirmed false status = is_delivered status

abbrev pub settle_order : Bool → Bool → ℕ → Order → Method (Unit {0})
settle_order test_mode is_refund id order = do
  recharge ← find_recharge id
  raise_if (not (is_confirmed is_refund recharge.status))
      (fail Types.store_settlement_not_confirmed 409)
  if is_refund then refund_order test_mode id order recharge else deliver_order test_mode id order

-- The transaction of `settle`, on the order's row after its store is locked.
abbrev pub settle_locked : Bool → Bool → ℕ → Method (Unit {0})
settle_locked test_mode is_refund id = do
  initial ← find_order id
  lock initial.store_id >>= λ _. find_order id >>= λ order.
      if is_settled is_refund order.status
      then pure tt
      else settle_order test_mode is_refund id order

unfoldable pub settle : Bool → Bool → Recharge → Method (Unit {0})
settle test_mode is_refund given = do
  raise_if (not (is_store_payment test_mode given)) (fail Types.store_payment_mismatch 409)
  atomic (settle_locked test_mode is_refund given.id)
