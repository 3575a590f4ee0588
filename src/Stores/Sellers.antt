-- ===== src/Stores/Sellers.antt =====
-- What the hold of a price rests on (apps/api/src/flupflap/stores.ts and store-policy.ts): the share of
-- the fee, the seller's row and a new order in the books.
use ticash.Prelude.{
  ℕ, ◌≡◌, ◌∙◌, ◌≤◌, ◌<◌, ◌↔◌, ◌*◌, ◌+◌, sym, arith, ap, Bool, false, not, Option, none, some, List,
  ok,
}
use mathlib.Core.Path.{subst}
use native.Mathlib.Nat.{mul-le-mul_left}
use ticash.Prelude.Lists.{find}
use ticash.Prelude.Maps.{get, put, values, get-put_all}
use ticash.Prelude.Int.{ℤ, pos, ◌+ℤ◌, ◌≤ℤ◌, ltb_ℤ, int_laws, pos_part, neg_part}
use ticash.Prelude.Triples.{
  Triple, read_rule, raise_if_rule, bind_rule, pure_rule, weaken, current_rule, or_raise_rule,
}
use ticash.Stores.Types
use ticash.Stores.Types.{fail, Store, Order, Database}
use ticash.Prelude.Doubles.{double-small, floor_quotient-small}
use ticash.Stores.Policy.{cents, store_commission, max_safe_integer}
use ticash.Stores.Ledger.{neg}
use ticash.Stores.Deposits.{selling_store, may_sell, is_selling, own_store}
use ticash.Stores.Books.{Books, IsFair, held_cents, held_total-put_new}
use ticash.Stores.Settlements.{Consistent}

-- Where the fee times the rate is small enough for a double, a commission of `share` cents is paid exactly
-- when the fee is a safe integer, the rate is at most 5000 basis points, and `share` is that rate of the
-- fee to the nearest cent, a half upward.
pub store_commission_iff :
    (fee bps share : ℕ)
    → fee * bps + 5000 ≤ max_safe_integer
    → (store_commission fee bps ≡ ok share) ↔ (
        (fee ≤ max_safe_integer)
        × (bps ≤ 5000)
        × (10000 * share ≤ fee * bps + 5000)
        × (fee * bps + 5000 < 10000 * share + 10000))
unfolding store_commission
store_commission_iff fee bps share s =
    let product = double-small (fee * bps) (omega (arith, s)) in
    let sum = double-small (fee * bps + 5000) s in
    let quotient = floor_quotient-small (fee * bps + 5000) 10000 s in
    rw (product, sum, quotient) (λ h. ground arith, λ h. ground arith)

-- The rate of a commission that is paid is at most 5000 basis points, so the commission of a price is at
-- most its fee, which is at most $10,000.
store_commission_rate : (fee bps share : ℕ) → store_commission fee bps ≡ ok share → bps ≤ 5000
unfolding store_commission
store_commission_rate fee bps share h = ground arith

pub store_commission-le :
    (given fee bps share : ℕ)
    → cents given ≡ ok fee
    → store_commission fee bps ≡ ok share
    → share ≤ fee
unfolding cents
store_commission-le given fee bps share c h =
    let f : fee ≤ 1000000 = (ground (arith, c)) in
    let p = mul-le-mul_left {m = bps} {n = 5000} fee (store_commission_rate fee bps share h) in
    let (_, _, q, _) = (store_commission_iff fee bps share (omega (arith, f, p))).0 h in
    omega (arith, p, q)

-- A new order adds what it holds.
pub new_order-Books :
    (x y : ℤ) (id : ℕ) (order : Order) (s : Database)
    → get id s.orders ≡ none
    → IsFair order
    → Books x y s
    → Books x (y +ℤ held_cents order.status order) (record s { orders = put id order s.orders })
new_order-Books x y id order s n f b = record {
  cash = b.cash;
  holds =
      (let p = held_total-put_new id order s.orders n in
        let e = b.holds in
        omega (int_laws, ap pos_part p, ap neg_part p, ap pos_part e, ap neg_part e));
  balanced = b.balanced;
  keyed = b.keyed;
  solvent = b.solvent;
  fair = get-put_all (λ _. IsFair) id order s.orders b.fair f;
}

-- The seller's row is the one under its id.
pub selling_store_rule :
    (countries : List ℕ) (test_mode : Bool) (owner : Option ℕ)
    → Triple Consistent
        (selling_store countries test_mode owner)
        (λ store s. Consistent s × (get store.id s.stores ≡ some store))
selling_store_rule countries test_mode owner =
    bind_rule (or_raise_rule _ owner (fail Types.store_account_required 403)) λ id.
      bind_rule (current_rule _) λ db.
        bind_rule
          (raise_if_rule _ (not (may_sell (get id db.customers)))
            (fail Types.store_account_restricted 403))
          λ _.
            bind_rule
              (or_raise_rule _ (find (own_store test_mode id) (values db.stores))
                (fail Types.store_account_required 403))
              λ store.
                bind_rule (read_rule _ (λ s. get store.id s.stores) (fail Types.row_not_found 500))
                  λ locked.
                    bind_rule
                      (raise_if_rule _ (not (is_selling countries locked))
                        (fail Types.store_not_active 403))
                      λ _. weaken (pure_rule _ _) λ a s h.
                        let (((((((b, _), _), _), _), g), _), e) = h in
                        let i : store.id ≡ a.id =
                          (sym (b.keyed store.id locked g) ∙ ap (λ (o : Store). o.id) e) in
                        (b, subst (λ i. get i s.stores ≡ some a) i (g ∙ ap some e))

pub covers : (x : ℤ) (total : ℕ) → ltb_ℤ x (pos total) ≡ false → pos 0 ≤ℤ x +ℤ neg total
unfolding ◌+ℤ◌
covers x total h = ground arith
