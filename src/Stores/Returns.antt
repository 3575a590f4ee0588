-- ===== src/Stores/Returns.antt =====
-- What a return outside the program (`recordBalanceReturn` of apps/api/src/flupflap/stores.ts) does to
-- the books.
use ticash.Prelude.{ℕ, ◌≡◌, refl, arith, Bool, not, ◌&&◌, Option, none, some, [], ◌∷◌, ◌==◌}
use mathlib.Core.Path.{subst}
use ticash.Prelude.Maps.{get}
use ticash.Prelude.Int.{pos, ◌+ℤ◌, ◌≤ℤ◌, ltb_ℤ, int_laws}
use ticash.Prelude.Triples.{
  Triple, read_rule, raise_if_rule, bind_rule, named_rule, pure_rule, weaken, strengthen,
  current_rule, or_raise_rule,
}
use ticash.Stores.Types
use ticash.Stores.Types.{
  fail, Store, Entry, balance, funding_clearing, balance_return, store_entry, Database,
}
use ticash.Stores.Ledger.{neg}
use ticash.Stores.Deposits.{same_bool, same_int}
use ticash.Stores.Orders.{record_balance_return, book_return, find_entry}
use ticash.Stores.Postings.{Books-eq, movement_rule, journal_rule}
use ticash.Stores.Transactions.{atomic_rule}
use ticash.Stores.Settlements.{Consistent}
use ticash.Stores.Sellers.{covers}
use ticash.Stores.Reviews.{audit_rule}

book_return_rule :
    (test_mode : Bool) (actor id amount_cents reference : ℕ) (store : Store) (found : Option Entry)
    → Triple
        (λ s. Consistent s × (get id s.stores ≡ some store))
        (book_return test_mode actor id amount_cents reference store found)
        (λ _. Consistent)
book_return_rule test_mode actor id amount_cents reference store (some e) =
    bind_rule
      (raise_if_rule _ (not (e.store_id == id && same_int e.amount_cents (neg amount_cents)))
        (fail Types.balance_return_reference_conflict 409))
      λ _. weaken (pure_rule _ e) λ _ s h. h.0.0.0
book_return_rule test_mode actor id amount_cents reference store none = named_rule λ s₀ (b, g).
    bind_rule
      (raise_if_rule _ (ltb_ℤ store.balance_cents (pos amount_cents))
        (fail Types.store_insufficient_balance 409))
      λ _.
        bind_rule
          (strengthen
            (λ s e. rw e.0 (
              (b, refl),
              λ other k.
                  let same : store ≡ other = (ground (arith, g, k)) in
                  subst (λ (o : Store). pos 0 ≤ℤ o.balance_cents +ℤ neg amount_cents) same
                    (covers store.balance_cents amount_cents e.1),
            ))
            (movement_rule s₀.orders (pos 0) (pos 0) id (balance_return reference)
              (neg amount_cents)))
          λ _.
            bind_rule
              (weaken
                (journal_rule s₀.orders _ _ test_mode (store_entry (balance_return reference))
                  ((balance, pos amount_cents) ∷ (funding_clearing, neg amount_cents) ∷ []))
                λ _ s b. Books-eq {x' = pos 0} {y' = pos 0} (grind int_laws) (grind int_laws) b.0)
              λ _. bind_rule (audit_rule actor id) λ _. bind_rule (current_rule _) λ after.
                weaken
                  (or_raise_rule _ (find_entry (balance_return reference) after.entries)
                    (fail Types.row_not_found 500))
                  λ _ s h. h.0.0

pub record_balance_return-Books :
    (test_mode : Bool) (actor id amount_cents reference : ℕ) (s : Database)
    → Consistent s
    → Consistent (record_balance_return test_mode actor id amount_cents reference s).1
unfolding record_balance_return
record_balance_return-Books test_mode actor id amount_cents reference s b =
    atomic_rule Consistent _
      (bind_rule (read_rule {A = Store} _ (λ s. get id s.stores) (fail Types.row_not_found 500))
        λ store.
          bind_rule
            (raise_if_rule _ (not (same_bool store.test_mode test_mode))
              (fail Types.store_environment_mismatch 409))
            λ _. bind_rule (current_rule _) λ db.
              strengthen (λ _ h. h.0.0)
                (book_return_rule test_mode actor id amount_cents reference store
                  (find_entry (balance_return reference) db.entries)))
      s b
