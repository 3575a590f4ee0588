-- ===== src/Stores/Settlements.antt =====
-- What the settlement of an order (`settle` of apps/api/src/flupflap/stores.ts) does to the books.
use ticash.Prelude.{ℕ, ◌≡◌, refl, ap, Bool, false, not, ◌≢◌, some}
use ticash.Prelude.Maps.{Map, get, put, get-put_all}
use ticash.Prelude.Int.{ℤ, pos, ◌+ℤ◌, ◌-ℤ◌, ◌≤ℤ◌, int_laws, pos_part, neg_part}
use ticash.Prelude.Triples.{
  Triple, read_rule, raise_if_rule, modify_rule, bind_rule, named_rule, if_rule, pure_rule, weaken,
  strengthen,
}
use ticash.Stores.Types.{
  Order, OrderStatus, held, delivered, refunded, balance, held_account, refund, commission,
  store_entry, delivery, Recharge, Database,
}
use ticash.Stores.Orders.{
  settle, settle_order, put_order, put_recharge, refund_order, deliver_order, refund_amount,
  refund_lines, delivery_lines, is_settled, is_store_payment,
}
use ticash.Stores.Books.{Books, IsFair, held_cents, held_total-put, line_total}
use ticash.Stores.Transactions.{atomic_rule, guard_keeps}
use ticash.Stores.Postings.{BooksWith, Covers, Books-eq, Books-same, movement_rule, journal_rule}

-- Between operations the books agree.
abbrev pub Consistent : Database → Type 0
Consistent = Books (pos 0) (pos 0)

pub put_order-Books :
    (x y : ℤ) (id : ℕ) (old new : Order) (s : Database)
    → get id s.orders ≡ some old
    → IsFair new
    → Books x y s
    → Books x
        (y +ℤ held_cents new.status new -ℤ held_cents old.status old)
        (record s { orders = put id new s.orders })
put_order-Books x y id old new s g f b = record {
  cash = b.cash;
  holds =
      (let h = held_total-put id old new s.orders g in
        let e = b.holds in
        omega (int_laws, ap pos_part h, ap neg_part h, ap pos_part e, ap neg_part e));
  balanced = b.balanced;
  keyed = b.keyed;
  solvent = b.solvent;
  fair = get-put_all (λ _. IsFair) id new s.orders b.fair f;
}

pub Books-Covers :
    (x y : ℤ) (id : ℕ) (amount : ℤ) (s : Database)
    → Books x y s
    → pos 0 ≤ℤ amount
    → Covers id amount s
Books-Covers x y id amount s b p store g = let h = b.solvent id store g in omega int_laws

module _ (orders : Map Order) (x y : ℤ) (id : ℕ) where
  pub put_recharge_rule :
      (r : Recharge)
      → Triple (BooksWith orders x y) (put_recharge id r) (λ _ s. BooksWith orders x y s)
  put_recharge_rule r =
      modify_rule _ _ (λ s. record s { recharges = put id r s.recharges })
        λ s h. let (b, o) = h in (Books-same s _ refl refl refl b, o)

  pub put_order_rule :
      (old new : Order)
      → get id orders ≡ some old
      → IsFair new
      → Triple
          (BooksWith orders x y)
          (put_order id new)
          (λ _ s. Books x (y +ℤ held_cents new.status new -ℤ held_cents old.status old) s)
  put_order_rule old new g f =
      modify_rule _ _ (λ s. record s { orders = put id new s.orders })
        λ s h. put_order-Books x y id old new s (rw h.1 g) f h.0

-- The two entries of a refund cancel in the balance account, and the hold is released if it was not.
refund_posting :
    (status : OrderStatus) (order : Order)
    → status ≢ refunded
    → (pos 0 +ℤ refund_amount status order +ℤ line_total balance (refund_lines status order)
        ≡ pos 0)
      × (pos 0 +ℤ line_total held_account (refund_lines status order) ≡ held_cents status order)
refund_posting held order n = (omega int_laws, omega int_laws)
refund_posting delivered order n = (omega int_laws, omega int_laws)
refund_posting refunded order n = absurd (n refl)

delivery_posting :
    (order : Order)
    → (pos 0 +ℤ pos order.commission_cents +ℤ line_total balance (delivery_lines order) ≡ pos 0)
      × (pos 0 +ℤ line_total held_account (delivery_lines order) ≡ pos order.total_cents)
delivery_posting order = (grind int_laws, omega int_laws)

refund_amount_nonneg :
    (status : OrderStatus) (order : Order) → IsFair order → pos 0 ≤ℤ refund_amount status order
refund_amount_nonneg held order f = omega int_laws
refund_amount_nonneg delivered order f = omega (int_laws, f.0, f.1)
refund_amount_nonneg refunded order f = omega int_laws

module _ (test_mode : Bool) (orders : Map Order) (id : ℕ) (order : Order)
    (g : get id orders ≡ some order) (f : IsFair order) where
  refund_order_rule :
      (recharge : Recharge)
      → order.status ≢ refunded
      → Triple
          (BooksWith orders (pos 0) (pos 0))
          (refund_order test_mode id order recharge)
          (λ _. Consistent)
  refund_order_rule recharge n =
      bind_rule
        (strengthen
          (λ s b. (b, Books-Covers _ _ _ _ s b.0 (refund_amount_nonneg order.status order f)))
          (movement_rule orders (pos 0) (pos 0) order.store_id (refund id)
            (refund_amount order.status order)))
        λ _.
          bind_rule
            (journal_rule orders _ _ test_mode (store_entry (refund id))
              (refund_lines order.status order))
            λ _. bind_rule (put_recharge_rule orders _ _ id _) λ _.
              weaken (put_order_rule orders _ _ id order (record order { status = refunded }) g f)
                λ _ s b.
                  let (p, q) = refund_posting order.status order n in
                  Books-eq p (rw q (omega int_laws)) b

  deliver_order_rule :
      order.status ≡ held
      → Triple
          (BooksWith orders (pos 0) (pos 0))
          (deliver_order test_mode id order)
          (λ _. Consistent)
  deliver_order_rule n =
      bind_rule
        (strengthen (λ s b. (b, Books-Covers _ _ _ _ s b.0 (omega int_laws)))
          (movement_rule orders (pos 0) (pos 0) order.store_id (commission id)
            (pos order.commission_cents)))
        λ _. bind_rule (journal_rule orders _ _ test_mode (delivery id) (delivery_lines order)) λ _.
          weaken (put_order_rule orders _ _ id order (record order { status = delivered }) g f)
            λ _ s b.
              let (p, q) = delivery_posting order in Books-eq p (rw (n, q) (omega int_laws)) b

is_settled-open :
    (b : Bool) (status : OrderStatus) → is_settled b status ≡ false → status ≢ refunded
is_settled-open b held h e = cc
is_settled-open b delivered h e = cc
is_settled-open b refunded h e = cc

is_settled-held : (status : OrderStatus) → is_settled false status ≡ false → status ≡ held
is_settled-held held h = refl
is_settled-held delivered h = absurd (cc)
is_settled-held refunded h = absurd (cc)

-- The confirmation by the recharge's status, then one of the two bookings.
settle_order_rule :
    (test_mode : Bool) (is_refund : Bool) (id : ℕ) (order : Order)
    → Triple
        (λ s.
          (Consistent s × (get id s.orders ≡ some order))
          × (is_settled is_refund order.status ≡ false))
        (settle_order test_mode is_refund id order)
        (λ _. Consistent)
settle_order_rule test_mode is_refund id order =
    bind_rule (read_rule _ (λ s. get id s.recharges) _) λ recharge.
      bind_rule (raise_if_rule _ _ _) λ _.
        if_rule is_refund
          (named_rule λ s h.
            let ((((w, n), k), _), t) = h in
            strengthen (λ s' e. rw e (w.0, refl))
              (refund_order_rule test_mode s.orders id order w.1 (w.0.fair id order w.1) recharge
                (is_settled-open is_refund order.status n)))
          (named_rule λ s h.
            let ((((w, n), k), _), t) = h in
            strengthen (λ s' e. rw e (w.0, refl))
              (deliver_order_rule test_mode s.orders id order w.1 (w.0.fair id order w.1)
                (is_settled-held order.status (rw t at n))))

-- A settlement leaves books that agree, whatever the record, the order's state and the outcome.
pub settle-Books :
    (test_mode is_refund : Bool) (given : Recharge) (s : Database)
    → Consistent s
    → Consistent (settle test_mode is_refund given s).1
unfolding settle
settle-Books test_mode is_refund given s b =
    guard_keeps Consistent (not (is_store_payment test_mode given)) _ _ s b (
      atomic_rule Consistent _
        (bind_rule (read_rule _ (λ s. get given.id s.orders) _) λ initial.
          bind_rule (read_rule _ (λ s. get initial.store_id s.stores) _) λ _.
            bind_rule (read_rule _ (λ s. get given.id s.orders) _) λ order.
              if_rule (is_settled is_refund order.status)
                (weaken (pure_rule _ tt) λ _ s h. h.0.0.0.0.0)
                (strengthen (λ s h. ((h.0.0.0.0, h.0.1), h.1))
                  (settle_order_rule test_mode is_refund given.id order)))
        s b)
