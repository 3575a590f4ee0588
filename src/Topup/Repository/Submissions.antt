-- ===== src/Topup/Repository/Submissions.antt =====
-- A quote of apps/api/src/topup/repository.ts is charged once.
use ticash.Prelude.{
  ℕ, ◌≡◌, refl, arith, Bool, true, false, none, some, [], ◌∷◌, ◌==◌, ok, inl, inr, Bool-cases,
  Option-cases,
}
use mathlib.Core.Path.{sym, ap}
use ticash.Prelude.Lists.{find}
use ticash.Prelude.Maps.{Map, get, put, values}
use ticash.Topup.Repository.Types.{Transaction, TopUpStore}
use ticash.Topup.Repository.Quotes.{Reserved, reserve_transaction, is_replay, is_open_quote}

find-put :
    (p : Transaction → Bool) (k : ℕ) (x : Transaction) (m : Map Transaction)
    → find p (values m) ≡ none
    → p x ≡ true
    → find p (values (put k x m)) ≡ some x
find-put p k x [] h e = rw e refl
find-put p k x ((j, y) ∷ m) h e = ground (arith, find-put p k x m)

-- What a reservation that created a transaction had found, and what it leaves.
reserved_new :
    (input : Transaction) (s s' : TopUpStore) (r : Reserved)
    → reserve_transaction input s ≡ (ok r, s')
    → r.created ≡ true
    → (find (is_replay input) (values s.transactions) ≡ none)
      × (find (λ (t : Transaction). t.quote_id == input.quote_id) (values s.transactions) ≡ none)
      × (s'.transactions ≡ put input.id input s.transactions)
unfolding reserve_transaction
reserved_new input s s' r h c =
    elim (Option-cases (find (is_replay input) (values s.transactions))) [
      | inr (t, replay) ↦ absurd (let k = rw replay at h in ground arith)
      | inl no_replay ↦
          let h1 = rw no_replay at h in
          elim (Option-cases
            (find (λ (t : Transaction). t.quote_id == input.quote_id) (values s.transactions))) [
              | inr (t, same) ↦ absurd (let k = rw same at h1 in cc)
              | inl no_same ↦
                  let h2 = rw no_same at h1 in
                  elim (Option-cases (get input.quote_id s.quotes)) [
                    | inl missing ↦ absurd (let k = rw missing at h2 in cc)
                    | inr (q, found) ↦
                        let h3 = rw found at h2 in
                        elim (Bool-cases (is_open_quote input q)) [
                          | inl open_ ↦
                              let h4 = rw open_ at h3 in
                              (
                                no_replay,
                                no_same,
                                ap (λ (x : TopUpStore). x.transactions) (sym (ap (λ x. x.1) h4)),
                              )
                          | inr shut ↦ absurd (let k = rw shut at h3 in cc)
                        ]
                  ]
            ]
    ]

-- Once a submission has created a transaction, the same submission, by its user and idempotency key,
-- gets that transaction back and changes nothing, whatever else it says.
pub reserve_transaction_again :
    (input again : Transaction) (s s' : TopUpStore) (r : Reserved)
    → reserve_transaction input s ≡ (ok r, s')
    → r.created ≡ true
    → again.user_id ≡ input.user_id
    → again.idempotency_key ≡ input.idempotency_key
    → reserve_transaction again s' ≡ (ok (record { transaction = input; created = false }), s')
unfolding reserve_transaction
reserve_transaction_again input again s s' r h c u k =
    let (none_, _, stored) = reserved_new input s s' r h c in
    let same : find (is_replay again) (values s'.transactions) ≡ some input =
      (rw (stored, u, k)
        (find-put (is_replay input) input.id input s.transactions none_ (ground arith))) in
    rw same refl

-- Once a submission has created a transaction for a quote, no later submission of that quote, by
-- whatever user and key, changes the store.
pub reserve_transaction_same_quote :
    (input other : Transaction) (s s' : TopUpStore) (r : Reserved)
    → reserve_transaction input s ≡ (ok r, s')
    → r.created ≡ true
    → other.quote_id ≡ input.quote_id
    → (reserve_transaction other s').1 ≡ s'
unfolding reserve_transaction
reserve_transaction_same_quote input other s s' r h c q =
    let (_, none_, stored) = reserved_new input s s' r h c in
    let same : find (λ (t : Transaction). t.quote_id == other.quote_id) (values s'.transactions)
        ≡ some input =
      (rw (stored, q)
        (find-put (λ (t : Transaction). t.quote_id == input.quote_id) input.id input s.transactions
          none_ (ground arith))) in
    elim (Option-cases (find (is_replay other) (values s'.transactions))) [
      | inl new ↦ rw (new, same) refl
      | inr (t, replay) ↦ rw replay refl
    ]
