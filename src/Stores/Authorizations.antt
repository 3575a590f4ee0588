-- ===== src/Stores/Authorizations.antt =====
-- What the hold of a recharge's price (`authorize` of apps/api/src/flupflap/stores.ts) does to the books.
use ticash.Prelude.{
  ℕ, ◌≡◌, refl, arith, ap, Bool, not, ◌||◌, ◌&&◌, Option, none, some, List, [], ◌∷◌, ◌==◌, ltb, leb,
}
use mathlib.Core.Path.{subst}
use ticash.Prelude.Lists.{includes}
use ticash.Prelude.Maps.{get, put, has, has-none}
use ticash.Prelude.Int.{pos, ◌+ℤ◌, ◌≤ℤ◌, ltb_ℤ, int_laws}
use ticash.Prelude.Triples.{
  Triple, read_rule, raise_if_rule, modify_rule, bind_rule, named_rule, if_rule, pure_rule, weaken,
  strengthen, lift_rule, current_rule, or_raise_rule,
}
use ticash.Stores.Types
use ticash.Stores.Types.{
  captured, fail, Store, Order, held, balance, held_account, purchase, hold, Recharge, Database,
}
use ticash.Stores.Policy.{store_commission, cents}
use ticash.Stores.Ledger.{neg}
use ticash.Stores.Deposits.{same_id}
use ticash.Stores.Orders.{authorize, is_pending, hold_order, book_hold, is_store_payment}
use ticash.Stores.Books.{IsFair, line_total, held_cents}
use ticash.Stores.Postings.{BooksWith, Covers, Books-eq, movement_rule, journal_rule}
use ticash.Stores.Transactions.{atomic_rule, guard_keeps}
use ticash.Stores.Settlements.{Consistent, put_recharge_rule}
use ticash.Stores.Sellers.{store_commission-le, new_order-Books, selling_store_rule, covers}

hold_posting :
    (order : Order)
    → (pos 0
          +ℤ neg order.total_cents
          +ℤ line_total balance
              ((balance, pos order.total_cents) ∷ (held_account, neg order.total_cents) ∷ [])
        ≡ pos 0)
      × (pos 0
            +ℤ pos order.total_cents
            +ℤ line_total held_account
                ((balance, pos order.total_cents) ∷ (held_account, neg order.total_cents) ∷ [])
          ≡ pos 0)
hold_posting order = (grind int_laws, grind int_laws)

book_hold_rule :
    (test_mode : Bool) (now id : ℕ) (order : Order) (recharge : Recharge)
    → order.status ≡ held
    → IsFair order
    → Triple
        (λ s.
          (Consistent s × (get id s.orders ≡ none))
          × Covers order.store_id (neg order.total_cents) s)
        (book_hold test_mode now id order recharge)
        (λ _. Consistent)
book_hold_rule test_mode now id order recharge e f = named_rule λ s h.
    let ((b, n), c) = h in
    let orders = put id order s.orders in
    bind_rule
      (modify_rule _
        (λ s.
          BooksWith orders (pos 0) (pos 0 +ℤ held_cents order.status order) s
          × Covers order.store_id (neg order.total_cents) s)
        (λ s. record s { orders = put id order s.orders })
        λ s' q. rw q ((new_order-Books _ _ id order s n f b, refl), c))
      λ _.
        bind_rule (movement_rule orders _ _ order.store_id (purchase id) (neg order.total_cents))
          λ _.
            bind_rule
              (journal_rule orders _ _ test_mode (hold id)
                ((balance, pos order.total_cents) ∷ (held_account, neg order.total_cents) ∷ []))
              λ _.
                weaken
                  (put_recharge_rule orders _ _ id (record recharge {
                    payment_status = captured;
                    payment_authorization_id = some id;
                    payment_started_at = some now;
                  }))
                  λ _ s b. let (p, q) = hold_posting order in Books-eq p (rw e q) b.0

hold_order_rule :
    (countries : List ℕ) (test_mode : Bool) (now id : ℕ) (store : Store)
    → Triple
        (λ s. (Consistent s × (get store.id s.stores ≡ some store)) × (get id s.orders ≡ none))
        (hold_order countries test_mode now id store)
        (λ _. Consistent)
hold_order_rule countries test_mode now id store =
    bind_rule (read_rule {A = Recharge} _ (λ s. get id s.recharges) (fail Types.row_not_found 500))
      λ recharge.
        bind_rule
          (raise_if_rule _
            (not (
              same_id recharge.customer_id store.customer_id
              && is_store_payment test_mode recharge
              && is_pending recharge.payment_status))
            (fail Types.store_payment_mismatch 409))
          λ _. bind_rule (current_rule _) λ db.
            bind_rule
              (or_raise_rule _ (get recharge.quote_id db.quotes) (fail Types.row_not_found 500))
              λ expires_at.
                bind_rule
                  (raise_if_rule _ (leb expires_at now) (fail Types.topup_quote_expired 409))
                  λ _.
                    bind_rule
                      (raise_if_rule _ (includes db.promoted_quotes recharge.quote_id)
                        (fail Types.store_promotion_not_allowed 409))
                      λ _. bind_rule (lift_rule _ (cents recharge.total_charge_cents)) λ total.
                        bind_rule (lift_rule _ (cents recharge.fee_charge_cents)) λ fee.
                          bind_rule
                            (raise_if_rule _ (ltb total fee || total == 0)
                              (fail Types.invalid_store_amount 409))
                            λ _.
                              bind_rule
                                (raise_if_rule _ (ltb_ℤ store.balance_cents (pos total))
                                  (fail Types.store_insufficient_balance 409))
                                λ _.
                                  bind_rule
                                    (lift_rule _ (store_commission fee store.commission_bps))
                                    λ earned. named_rule λ s h.
                                      let (
                                        (
                                          (((((((((((b, g), n), _), _), _), _), _), _), _), c), le),
                                          short,
                                        ),
                                        earn,
                                      ) =
                                        h in
                                      let small =
                                        store_commission-le recharge.fee_charge_cents fee
                                          store.commission_bps earned c earn in
                                      strengthen
                                        (λ s' e. rw e (
                                          (b, n),
                                          λ other k.
                                              let same : store ≡ other = (ground (arith, g, k)) in
                                              subst
                                                (λ (o : Store).
                                                  pos 0 ≤ℤ o.balance_cents +ℤ neg total)
                                                same (covers store.balance_cents total short),
                                        ))
                                        (book_hold_rule test_mode now id _ recharge refl
                                          (small, ground (arith, le)))

-- An authorization leaves books that agree, whatever the owner, the record and the outcome.
pub authorize-Books :
    (countries : List ℕ) (test_mode : Bool) (now : ℕ) (owner : Option ℕ) (given : Recharge)
    (s : Database)
    → Consistent s
    → Consistent (authorize countries test_mode now owner given s).1
unfolding authorize
authorize-Books countries test_mode now owner given s b =
    guard_keeps Consistent (not (is_store_payment test_mode given)) _ _ s b (
      atomic_rule Consistent _
        (bind_rule (selling_store_rule countries test_mode owner) λ store.
          bind_rule (current_rule _) λ db.
            if_rule (has given.id db.orders) (weaken (pure_rule _ tt) λ _ s h. h.0.0.0.0) (
              strengthen
                (λ s h. (
                  h.0.0,
                  has-none given.id s.orders (rw (ap (λ (d : Database). d.orders) h.0.1) h.1),
                ))
                (hold_order_rule countries test_mode now given.id store)))
        s b)
