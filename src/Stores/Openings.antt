-- ===== src/Stores/Openings.antt =====
-- What the application for a store (`apply` of apps/api/src/flupflap/stores.ts) does to the books.
use ticash.Prelude.{ℕ, ◌≡◌, refl, ap, Bool, not, Option, none, some}
use ticash.Prelude.Lists.{find}
use ticash.Prelude.Maps.{get, put, has, has-none, values, get-put_all}
use ticash.Prelude.Int.{pos, ◌≤ℤ◌, int_laws, pos_part, neg_part}
use ticash.Prelude.Triples.{
  Triple, raise_if_rule, modify_rule, bind_rule, pure_rule, weaken, strengthen, current_rule,
}
use ticash.Stores.Types
use ticash.Stores.Types.{Store, Database, fail}
use ticash.Stores.Deposits.{own_store}
use ticash.Stores.Applications.{apply, find_or_create, new_store, may_apply}
use ticash.Stores.Books.{balances_total-put_new}
use ticash.Stores.Transactions.{atomic_rule}
use ticash.Stores.Settlements.{Consistent}

new_store-Books :
    (test_mode : Bool) (uuid customer country : ℕ) (s : Database)
    → get uuid s.stores ≡ none
    → Consistent s
    → Consistent
        (record s { stores = put uuid (new_store test_mode uuid customer country) s.stores })
new_store-Books test_mode uuid customer country s n b = record {
  cash =
      (let p = balances_total-put_new uuid (new_store test_mode uuid customer country) s.stores n in
        let q = b.cash in
        omega (int_laws, ap pos_part p, ap neg_part p, ap pos_part q, ap neg_part q));
  holds = b.holds;
  balanced = b.balanced;
  keyed = get-put_all (λ j (o : Store). o.id ≡ j) uuid _ s.stores b.keyed refl;
  solvent =
      get-put_all (λ _ (o : Store). pos 0 ≤ℤ o.balance_cents) uuid _ s.stores b.solvent
        (omega int_laws);
  fair = b.fair;
}

find_or_create_rule :
    (test_mode : Bool) (uuid customer country : ℕ) (found : Option Store)
    → Triple Consistent
        (find_or_create uuid (new_store test_mode uuid customer country) found)
        (λ _. Consistent)
find_or_create_rule test_mode uuid customer country (some found) =
    weaken (pure_rule _ found) λ _ s h. h.0
find_or_create_rule test_mode uuid customer country none =
    let store = new_store test_mode uuid customer country in
    bind_rule (current_rule _) λ db.
      bind_rule (raise_if_rule _ (has uuid db.stores) (fail Types.unique_violation 500)) λ _.
        bind_rule
          (modify_rule _ Consistent (λ s. record s { stores = put uuid store s.stores })
            λ s h.
              new_store-Books test_mode uuid customer country s
                (has-none uuid s.stores (rw (ap (λ (d : Database). d.stores) h.0.1) h.1)) h.0.0)
          λ _. weaken (pure_rule _ store) λ _ s h. h.0

pub apply-Books :
    (test_mode : Bool) (uuid : ℕ) (owner : Option ℕ) (country : ℕ) (s : Database)
    → Consistent s
    → Consistent (apply test_mode uuid owner country s).1
unfolding apply
apply-Books test_mode uuid none country s b = b
apply-Books test_mode uuid (some customer) country s b =
    atomic_rule Consistent _
      (bind_rule (current_rule _) λ db.
        bind_rule
          (raise_if_rule _ (not (may_apply (get customer db.customers)))
            (fail Types.registered_account_required 403))
          λ _.
            strengthen (λ _ h. h.0.0)
              (find_or_create_rule test_mode uuid customer country
                (find (own_store test_mode customer) (values db.stores))))
      s b
