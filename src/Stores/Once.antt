-- ===== src/Stores/Once.antt =====
-- A settlement (`settle` of apps/api/src/flupflap/stores.ts) that is called again.
use ticash.Prelude.{
  ℕ, ◌≡◌, refl, arith, ap, Bool, true, false, not, none, some, List, ◌∷◌, if◌then◌else◌, ok,
}
use ticash.Prelude.Maps.{get, put, get-put_self}
use ticash.Prelude.Int.{ℤ, ◌+ℤ◌, pos}
use ticash.Prelude.Triples.{
  Triple, read_rule, raise_if_rule, modify_rule, bind_rule, current_rule, if_rule, pure_rule,
  weaken, strengthen,
}
use mathlib.Core.Path.{subst}
use ticash.Stores.Transactions.{committed, commits}
use ticash.Stores.Types.{
  Store, Order, delivered, refunded, refund, commission, store_entry, delivery, payment_refunded,
  EntryReference, Account, JournalReference, Recharge, Database, fail,
}
use ticash.Stores.Types
use ticash.Stores.Ledger.{
  fits_int, has_entry, movement, journal, add_entry, is_zero, sum_lines, has_journal, nonzero_lines,
}
use ticash.Stores.Orders.{
  settle, settle_order, refund_order, deliver_order, refund_amount, refund_lines, delivery_lines,
  is_settled, is_confirmed, settle_locked, is_store_payment, put_order,
}

-- The order's store is there.
abbrev HasStore : ℕ → Database → Type 0
HasStore id s = (store : Store) × (get id s.stores ≡ some store)

-- The order is settled, in the direction asked for, and its store is there.
abbrev pub IsSettled : Bool → ℕ → Database → Type 0
IsSettled is_refund id s =
    (order : Order) × (get id s.orders ≡ some order)
    × (is_settled is_refund order.status ≡ true)
    × HasStore order.store_id s

movement_stays :
    (id : ℕ) (r : EntryReference) (amount : ℤ)
    → Triple (λ _. Unit {0}) (movement id r amount) (λ _. HasStore id)
unfolding movement
movement_stays id r amount =
    bind_rule (read_rule {A = Store} _ (λ s. get id s.stores) (fail Types.row_not_found 500))
      λ store. bind_rule (current_rule _) λ db.
        bind_rule
          (raise_if_rule _ (not (fits_int (store.balance_cents +ℤ amount)))
            (fail Types.integer_out_of_range 500))
          λ _.
            bind_rule (raise_if_rule _ (has_entry r db.entries) (fail Types.unique_violation 500))
              λ _.
                modify_rule _ _ (add_entry id r amount store) λ s h. (_, get-put_self id _ s.stores)

journal_stays :
    (test_mode : Bool) (id : ℕ) (r : JournalReference) (lines : List (Account × ℤ))
    → Triple (HasStore id) (journal test_mode r lines) (λ _. HasStore id)
unfolding journal
journal_stays test_mode id r lines =
    bind_rule
      (raise_if_rule _ (not (is_zero (sum_lines lines))) (fail Types.unbalanced_store_journal 409))
      λ _. bind_rule (current_rule _) λ db.
        bind_rule (raise_if_rule _ (has_journal r db.journals) (fail Types.unique_violation 500))
          λ _.
            modify_rule _ _
              (λ s. record s {
                journals =
                    record { test_mode = test_mode; reference = r; lines = nonzero_lines lines }
                    ∷ s.journals;
              })
              λ s h. h.0.0.0

put_order_stays :
    (is_refund : Bool) (id : ℕ) (order : Order)
    → is_settled is_refund order.status ≡ true
    → Triple (HasStore order.store_id) (put_order id order) (λ _. IsSettled is_refund id)
put_order_stays is_refund id order e =
    modify_rule _ _ (λ s. record s { orders = put id order s.orders })
      λ s h. (order, get-put_self id order s.orders, e, h)

refund_order_stays :
    (test_mode : Bool) (is_refund : Bool) (id : ℕ) (order : Order) (recharge : Recharge)
    → Triple
        (λ _. Unit {0})
        (refund_order test_mode id order recharge)
        (λ _. IsSettled is_refund id)
refund_order_stays test_mode is_refund id order recharge =
    bind_rule (movement_stays order.store_id (refund id) (refund_amount order.status order)) λ _.
      bind_rule
        (journal_stays test_mode order.store_id (store_entry (refund id))
          (refund_lines order.status order))
        λ _.
          let back = record recharge {
            payment_status = payment_refunded;
            payment_recovery_code = none;
          } in
          bind_rule
            (modify_rule _ (HasStore order.store_id)
              (λ s. record s { recharges = put id back s.recharges }) λ s h. h)
            λ _. put_order_stays is_refund id (record order { status = refunded }) refl

deliver_order_stays :
    (test_mode : Bool) (id : ℕ) (order : Order)
    → Triple (λ _. Unit {0}) (deliver_order test_mode id order) (λ _. IsSettled false id)
deliver_order_stays test_mode id order =
    bind_rule (movement_stays order.store_id (commission id) (pos order.commission_cents)) λ _.
      bind_rule (journal_stays test_mode order.store_id (delivery id) (delivery_lines order))
        λ _. put_order_stays false id (record order { status = delivered }) refl

settle_order_stays :
    (test_mode : Bool) (is_refund : Bool) (id : ℕ) (order : Order)
    → Triple
        (λ _. Unit {0})
        (settle_order test_mode is_refund id order)
        (λ _. IsSettled is_refund id)
settle_order_stays test_mode is_refund id order =
    bind_rule (read_rule {A = Recharge} _ (λ s. get id s.recharges) (fail Types.row_not_found 500))
      λ recharge.
        bind_rule
          (raise_if_rule _ (not (is_confirmed is_refund recharge.status))
            (fail Types.store_settlement_not_confirmed 409))
          λ _. strengthen (λ _ _. tt) (book is_refund recharge)
  where
    book :
        (b : Bool) (recharge : Recharge)
        → Triple
            (λ _. Unit {0})
            (if b
              then refund_order test_mode id order recharge
              else deliver_order test_mode id order)
            (λ _. IsSettled b id)
    book true recharge = refund_order_stays test_mode true id order recharge
    book false recharge = deliver_order_stays test_mode id order

settle_locked_stays :
    (test_mode : Bool) (is_refund : Bool) (id : ℕ)
    → Triple (λ _. Unit {0}) (settle_locked test_mode is_refund id) (λ _. IsSettled is_refund id)
settle_locked_stays test_mode is_refund id =
    bind_rule (read_rule {A = Order} _ (λ s. get id s.orders) (fail Types.row_not_found 500))
      λ initial.
        bind_rule
          (read_rule {A = Store} _ (λ s. get initial.store_id s.stores)
            (fail Types.row_not_found 500))
          λ store.
            bind_rule
              (read_rule {A = Order} _ (λ s. get id s.orders) (fail Types.row_not_found 500))
              λ order.
                if_rule (is_settled is_refund order.status)
                  (weaken (pure_rule _ tt) λ _ s h.
                    let (((((_, g), k), o), e), _) = h in
                    (
                      order,
                      o,
                      e,
                      (
                        store,
                        let same : initial ≡ order = (ground (arith, g, o)) in
                            subst (λ (i : Order). get i.store_id s.stores ≡ some store) same k,
                      ),
                    ))
                  (strengthen (λ _ _. tt) (settle_order_stays test_mode is_refund id order))

settle_locked_settled :
    (test_mode : Bool) (is_refund : Bool) (id : ℕ) (s : Database)
    → IsSettled is_refund id s
    → settle_locked test_mode is_refund id s ≡ (ok tt, s)
settle_locked_settled test_mode is_refund id s (order, o, e, (store, g)) = rw (o, g, o, e)

-- A settlement that has returned is done: the same call again returns at once and changes nothing, so
-- that no refund and no commission is paid twice.
pub settle_again :
    (test_mode is_refund : Bool) (given : Recharge) (s s' : Database)
    → settle test_mode is_refund given s ≡ (ok tt, s')
    → settle test_mode is_refund given s' ≡ (ok tt, s')
unfolding settle
settle_again test_mode is_refund given s s' h =
    let c = not (is_store_payment test_mode given) in
    let m = settle_locked test_mode is_refund given.id in
    let (guard, returned) = committed c _ m tt s s' h in
    let settled =
      (settle_locked_stays test_mode is_refund given.id).run s tt tt (ap (λ x. x.0) returned) in
    commits c _ m tt s' s' guard (
      settle_locked_settled test_mode is_refund given.id s'
        (subst (IsSettled is_refund given.id) (ap (λ x. x.1) returned) settled))
