-- ===== src/Stores/Payouts.antt =====
-- What a settlement (`settle` of apps/api/src/flupflap/stores.ts) pays, and that it goes through.
use ticash.Prelude.{ℕ, ◌≡◌, refl, Bool, true, false, some, ok}
use ticash.Prelude.Maps.{get, get-put_self}
use ticash.Prelude.Int.{ℤ, pos, ◌+ℤ◌, ◌-ℤ◌, int_laws}
use ticash.Stores.Types.{
  Store, Order, OrderStatus, held, delivered, refunded, refund, commission, store_entry, delivery,
  EntryReference, JournalReference, Recharge, Database,
}
use ticash.Stores.Ledger.{movement, journal, is_zero, sum_lines, fits_int, has_entry, has_journal}
use ticash.Stores.Orders.{
  settle, refund_amount, refund_lines, delivery_lines, is_settled, is_confirmed, is_store_payment,
}

is_zero_of-eq : (x : ℤ) → x ≡ pos 0 → is_zero x ≡ true
is_zero_of-eq x e = rw e refl

-- The lines of a settlement add up to zero, so the journal never throws UNBALANCED_STORE_JOURNAL.
refund_lines-zero :
    (status : OrderStatus) (order : Order) → is_zero (sum_lines (refund_lines status order)) ≡ true
refund_lines-zero held order = is_zero_of-eq (sum_lines (refund_lines held order)) (omega int_laws)
refund_lines-zero delivered order =
    is_zero_of-eq (sum_lines (refund_lines delivered order)) (omega int_laws)
refund_lines-zero refunded order =
    is_zero_of-eq (sum_lines (refund_lines refunded order)) (omega int_laws)

delivery_lines-zero : (order : Order) → is_zero (sum_lines (delivery_lines order)) ≡ true
delivery_lines-zero order = is_zero_of-eq (sum_lines (delivery_lines order)) (grind int_laws)

-- What a settlement adds to the store's balance: a delivery the commission; a refund the total, or,
-- where the order was delivered before, the total less the commission that the delivery paid.
abbrev paid_on : Bool → OrderStatus → Order → ℤ
paid_on false _ order = pos order.commission_cents
paid_on true held order = pos order.total_cents
paid_on true delivered order = pos order.total_cents -ℤ pos order.commission_cents
paid_on true refunded order = pos 0

abbrev pub paid : Bool → Order → ℤ
paid is_refund order = paid_on is_refund order.status order

-- The status that a settlement leaves.
abbrev pub settled_status : Bool → OrderStatus
settled_status true = refunded
settled_status false = delivered

refund_amount-paid_on :
    (status : OrderStatus) (order : Order)
    → is_settled true status ≡ false
    → refund_amount status order ≡ paid_on true status order
refund_amount-paid_on held order e = refl
refund_amount-paid_on delivered order e = refl
refund_amount-paid_on refunded order e = absurd (cc)

abbrev pub paid_reference : Bool → ℕ → EntryReference
paid_reference true id = refund id
paid_reference false id = commission id

abbrev pub paid_journal : Bool → ℕ → JournalReference
paid_journal true id = store_entry (refund id)
paid_journal false id = delivery id

-- A delivery of a held order, or a refund of a held or delivered one, for a recharge whose status
-- confirms it, returns, sets the order's status and adds to the store's balance the commission, or the
-- total less a commission that was paid, where its entry and its journal are new and the new balance
-- fits a 32-bit integer column.
pub settle_pays :
    (test_mode is_refund : Bool) (given recharge : Recharge) (order : Order) (store : Store)
    (s : Database)
    → is_store_payment test_mode given ≡ true
    → get given.id s.orders ≡ some order
    → get order.store_id s.stores ≡ some store
    → get given.id s.recharges ≡ some recharge
    → is_confirmed is_refund recharge.status ≡ true
    → is_settled is_refund order.status ≡ false
    → fits_int (store.balance_cents +ℤ paid is_refund order) ≡ true
    → has_entry (paid_reference is_refund given.id) s.entries ≡ false
    → has_journal (paid_journal is_refund given.id) s.journals ≡ false
    → let (r, s') = settle test_mode is_refund given s in
      (r ≡ ok tt)
      × (get order.store_id s'.stores
          ≡ some (record store { balance_cents = store.balance_cents +ℤ paid is_refund order }))
      × (get given.id s'.orders ≡ some (record order { status = settled_status is_refund }))
unfolding settle movement journal
settle_pays test_mode true given recharge order store s p o k r c e f n j =
    let a = refund_amount-paid_on order.status order e in
    rw (p, o, k, o, e, r, c, k, a, f, n, refund_lines-zero order.status order, j)
      (refl, get-put_self order.store_id _ s.stores, get-put_self given.id _ s.orders)
settle_pays test_mode false given recharge order store s p o k r c e f n j =
    rw (p, o, k, o, e, r, c, k, f, n, delivery_lines-zero order, j)
      (refl, get-put_self order.store_id _ s.stores, get-put_self given.id _ s.orders)
