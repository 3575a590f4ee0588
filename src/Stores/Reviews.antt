-- ===== src/Stores/Reviews.antt =====
-- What the deposits, the reviews and the returns of apps/api/src/flupflap/stores.ts do to the books.
use ticash.Prelude.{
  ℕ, ◌≡◌, ◌∙◌, refl, ap, Bool, not, ◌&&◌, Option, none, some, List, [], ◌∷◌, ◌==◌, if◌then◌else◌,
}
use ticash.Prelude.Lists.{includes, find}
use ticash.Prelude.Maps.{get, put, values, get-put_all}
use ticash.Prelude.Int.{pos, ◌≤ℤ◌, int_laws, pos_part, neg_part}
use ticash.Prelude.Triples.{
  Triple, read_rule, raise_if_rule, modify_rule, bind_rule, named_rule, if_rule, pure_rule, weaken,
  strengthen, when_rule, current_rule,
}
use ticash.Stores.Types
use ticash.Stores.Types.{
  fail, Store, StoreStatus, FundingRequest, balance, funding_clearing, deposit, store_entry,
  approved, request_rejected, Database,
}
use ticash.Stores.Ledger.{neg}
use ticash.Stores.Deposits.{
  review_funding, review, is_outcome, answer_request, request_funding, approve_deposit,
  review_pending, is_pending_request, same_bool, audit, is_customer_active, is_selling,
  is_store_active, set_commission, new_request,
}
use ticash.Stores.Books.{balances_total-put}
use ticash.Stores.Postings.{Books-eq, Books-same, movement_rule, journal_rule}
use ticash.Stores.Transactions.{atomic_rule}
use ticash.Stores.Settlements.{Consistent, Books-Covers}
use ticash.Stores.Sellers.{selling_store_rule}

pub audit_rule : (actor entity : ℕ) → Triple Consistent (audit actor entity) (λ _. Consistent)
audit_rule actor entity =
    modify_rule _ _
      (λ s. record s { audit_log = record { actor = actor; entity_id = entity } ∷ s.audit_log })
      λ s b. Books-same s _ refl refl refl b

-- A movement and a journal of two lines, one of which is the balance's opposite one.
approve_deposit_rule :
    (countries : List ℕ) (test_mode : Bool) (id : ℕ) (request : FundingRequest) (store : Store)
    → Triple Consistent (approve_deposit countries test_mode id request store) (λ _. Consistent)
approve_deposit_rule countries test_mode id request store = named_rule λ s₀ h.
    bind_rule (current_rule _) λ db.
      bind_rule
        (raise_if_rule _ (not (is_customer_active (get store.customer_id db.customers)))
          (fail Types.store_account_restricted 409))
        λ _.
          bind_rule
            (raise_if_rule _ (not (is_selling countries store)) (fail Types.store_not_active 409))
            λ _.
              bind_rule
                (strengthen
                  (λ s e. rw e.0.0.0 ((h, refl), Books-Covers _ _ _ _ s₀ h (omega int_laws)))
                  (movement_rule s₀.orders (pos 0) (pos 0) store.id (deposit id)
                    (pos request.amount_cents)))
                λ _.
                  weaken
                    (journal_rule s₀.orders _ _ test_mode (store_entry (deposit id)) (
                      (funding_clearing, pos request.amount_cents)
                      ∷ (balance, neg request.amount_cents)
                      ∷ []))
                    λ _ s b. Books-eq (grind int_laws) (grind int_laws) b.0

review_pending_rule :
    (countries : List ℕ) (test_mode : Bool) (now actor id : ℕ) (approve : Bool)
    (request : FundingRequest) (store : Store)
    → Triple Consistent
        (review_pending countries test_mode now actor id approve request store)
        (λ _. Consistent)
review_pending_rule countries test_mode now actor id approve request store =
    bind_rule
      (raise_if_rule _ (not (same_bool store.test_mode test_mode))
        (fail Types.store_environment_mismatch 409))
      λ _.
        bind_rule
          (when_rule approve
            (strengthen (λ _ h. h.0.0) (approve_deposit_rule countries test_mode id request store))
            (λ _ h _. h.0))
          λ _.
            let updated = record request {
              status = if approve then approved else request_rejected;
              reviewed_by = some actor;
              reviewed_at = some now;
            } in
            bind_rule
              (modify_rule _ Consistent (λ s. record s { funding = put id updated s.funding })
                λ s b. Books-same s _ refl refl refl b)
              λ _. bind_rule (audit_rule actor id) λ _. weaken (pure_rule _ updated) λ _ s h. h.0

pub review_funding-Books :
    (countries : List ℕ) (test_mode : Bool) (now actor id : ℕ) (approve : Bool) (s : Database)
    → Consistent s
    → Consistent (review_funding countries test_mode now actor id approve s).1
unfolding review_funding
review_funding-Books countries test_mode now actor id approve s b =
    atomic_rule Consistent _
      (bind_rule
        (read_rule {A = FundingRequest} _ (λ s. get id s.funding) (fail Types.row_not_found 500))
        λ initial.
          bind_rule
            (read_rule {A = Store} _ (λ s. get initial.store_id s.stores)
              (fail Types.row_not_found 500))
            λ store.
              bind_rule
                (read_rule {A = FundingRequest} _ (λ s. get id s.funding)
                  (fail Types.row_not_found 500))
                λ request.
                  if_rule (is_pending_request request.status)
                    (strengthen (λ _ h. h.0.0.0.0)
                      (review_pending_rule countries test_mode now actor id approve request store))
                    (bind_rule
                      (raise_if_rule _ (not (is_outcome approve request.status))
                        (fail Types.deposit_already_reviewed 409))
                      λ _. weaken (pure_rule _ request) λ _ s h. h.0.0.0.0.0.0))
      s b

answer_request_rule :
    (uuid : ℕ) (store : Store) (amount_cents reference : ℕ) (found : Option FundingRequest)
    → Triple Consistent (answer_request uuid store amount_cents reference found) (λ _. Consistent)
answer_request_rule uuid store amount_cents reference (some r) =
    bind_rule
      (raise_if_rule _ (not (r.store_id == store.id && r.amount_cents == amount_cents))
        (fail Types.deposit_reference_already_used 409))
      λ _. weaken (pure_rule _ r) λ _ s h. h.0.0
answer_request_rule uuid store amount_cents reference none =
    let r = new_request uuid store.id amount_cents reference in
    bind_rule
      (modify_rule _ Consistent (λ s. record s { funding = put uuid r s.funding })
        λ s b. Books-same s _ refl refl refl b)
      λ _. weaken (pure_rule _ r) λ _ s h. h.0

set_commission-balance :
    (bps : Option ℕ) (store : Store)
    → (set_commission bps store).balance_cents ≡ store.balance_cents
set_commission-balance none store = refl
set_commission-balance (some _) store = refl

set_commission-id : (bps : Option ℕ) (store : Store) → (set_commission bps store).id ≡ store.id
set_commission-id none store = refl
set_commission-id (some _) store = refl

reviewed_store-Books :
    (id : ℕ) (store updated : Store) (s : Database)
    → get id s.stores ≡ some store
    → updated.balance_cents ≡ store.balance_cents
    → updated.id ≡ store.id
    → Consistent s
    → Consistent (record s { stores = put id updated s.stores })
reviewed_store-Books id store updated s g e i b = record {
  cash =
      (let p = balances_total-put id store updated s.stores g in
        let q = b.cash in
        omega (
          int_laws,
          ap pos_part p,
          ap neg_part p,
          ap pos_part q,
          ap neg_part q,
          ap pos_part e,
          ap neg_part e,
        ));
  holds = b.holds;
  balanced = b.balanced;
  keyed =
      get-put_all (λ j (o : Store). o.id ≡ j) id updated s.stores b.keyed (i ∙ b.keyed id store g);
  solvent =
      get-put_all (λ _ (o : Store). pos 0 ≤ℤ o.balance_cents) id updated s.stores b.solvent
        (rw e (b.solvent id store g));
  fair = b.fair;
}

pub request_funding-Books :
    (countries : List ℕ) (test_mode : Bool) (uuid : ℕ) (owner : Option ℕ)
    (amount_cents reference : ℕ) (s : Database)
    → Consistent s
    → Consistent (request_funding countries test_mode uuid owner amount_cents reference s).1
unfolding request_funding
request_funding-Books countries test_mode uuid owner amount_cents reference s b =
    atomic_rule Consistent _
      (bind_rule (selling_store_rule countries test_mode owner) λ store.
        bind_rule (current_rule _) λ db.
          strengthen (λ _ h. h.0.0)
            (answer_request_rule uuid store amount_cents reference
              (find (λ (r : FundingRequest). r.reference == reference) (values db.funding))))
      s b

pub review-Books :
    (countries : List ℕ) (test_mode : Bool) (actor id : ℕ) (status : StoreStatus) (bps : Option ℕ)
    (s : Database)
    → Consistent s
    → Consistent (review countries test_mode actor id status bps s).1
unfolding review
review-Books countries test_mode actor id status bps s b =
    atomic_rule Consistent _
      (bind_rule (read_rule {A = Store} _ (λ s. get id s.stores) (fail Types.row_not_found 500))
        λ store.
          bind_rule
            (raise_if_rule _ (not (same_bool store.test_mode test_mode))
              (fail Types.store_environment_mismatch 409))
            λ _.
              bind_rule
                (raise_if_rule _ (is_store_active status && not (includes countries store.country))
                  (fail Types.store_country_not_enabled 409))
                λ _.
                  let updated = record (set_commission bps store) { status = status } in
                  bind_rule
                    (modify_rule _ Consistent (λ s. record s { stores = put id updated s.stores })
                      λ s h.
                        reviewed_store-Books id store updated s h.0.0.1
                          (set_commission-balance bps store) (set_commission-id bps store) h.0.0.0)
                    λ _.
                      bind_rule (audit_rule actor id)
                        λ _. weaken (pure_rule _ updated) λ _ s h. h.0)
      s b
