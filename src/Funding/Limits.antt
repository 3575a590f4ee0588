-- ===== src/Funding/Limits.antt =====
-- What single calls of the repository promise: wallets, requests, defaults and webhook events.
use ticash.Prelude.{
  ℕ, ◌≡◌, ◌⊎◌, refl, arith, Bool, true, false, none, some, [], ◌∷◌, ◌==◌, Bool-cases, Option-cases,
  inl, inr, ok, err, if◌then◌else◌, zero, suc,
}
use ticash.Prelude.Lists.{find}
use ticash.Prelude.Maps.{Map, get, put, values}
use ticash.Prelude.Int.{pos, ◌+ℤ◌, ◌≤ℤ◌, int_laws}
use ticash.Funding.Types.{
  FundingTransactionRecord, FundingSourceRecord, insufficient_funds, has_reference, FundingStore,
  reserve_reference, release_reference,
}
use ticash.Funding.Repository.{
  FundingRequest, is_replay, Reservation, new_transaction, reserve_transaction, set_default_source,
  mark_source, mark_default, get_source,
}
use ticash.Funding.Settlement.{
  wallet_balance, reserve_wallet_for_transfer, release_wallet_for_transfer, debit, add_reference,
  is_short,
}
use ticash.Funding.Conservation.{wallet_balance-credit, wallet_balance-debit, wallet_balance-same}

-- A first reservation of a transfer, in whole cents, either takes the amount from the wallet, which then
-- is not overdrawn, or is refused because the wallet holds less than the amount, and changes nothing.
pub reserve_wallet_outcome :
    (user_id transfer_id amount : ℕ) (s : FundingStore)
    → has_reference s.ledger_references (reserve_reference transfer_id) ≡ false
    → let (r, s') = reserve_wallet_for_transfer user_id transfer_id amount s in
      ((r ≡ ok tt)
        × (wallet_balance user_id s' +ℤ pos amount ≡ wallet_balance user_id s)
        × (pos 0 ≤ℤ wallet_balance user_id s'))
      ⊎ ((r ≡ err insufficient_funds)
          × (s' ≡ s)
          × (wallet_balance user_id s +ℤ pos 1 ≤ℤ pos amount))
unfolding reserve_wallet_for_transfer
reserve_wallet_outcome user_id transfer_id amount s new =
    let s1 = add_reference (reserve_reference transfer_id) s in
    grind (
      int_laws,
      wallet_balance-debit user_id user_id (pos amount) s1,
      wallet_balance-same user_id s1 s refl,
    )

-- `n` calls in a row.
abbrev pub repeat : ℕ → (FundingStore → FundingStore) → FundingStore → FundingStore
repeat zero f s = s
repeat (suc n) f s = repeat n f (f s)

repeat_fixed :
    (n : ℕ) (f : FundingStore → FundingStore) (s : FundingStore) → f s ≡ s → repeat n f s ≡ s
repeat_fixed zero f s e = refl
repeat_fixed (suc n) f s e = rw e (repeat_fixed n f s e)

reserved_again :
    (u i a : ℕ) (s : FundingStore)
    → has_reference s.ledger_references (reserve_reference i) ≡ true
    → (reserve_wallet_for_transfer u i a s).1 ≡ s
unfolding reserve_wallet_for_transfer
reserved_again u i a s h = rw h refl

released_again :
    (u i a : ℕ) (s : FundingStore)
    → has_reference s.ledger_references (release_reference i) ≡ true
    → (release_wallet_for_transfer u i a s).1 ≡ s
unfolding release_wallet_for_transfer
released_again u i a s h = ground arith

-- The wallet after one reservation and one release.
release-reserve_once :
    (u i a : ℕ) (s : FundingStore)
    → has_reference s.ledger_references (reserve_reference i) ≡ false
    → has_reference s.ledger_references (release_reference i) ≡ false
    → (reserve_wallet_for_transfer u i a s).0 ≡ ok tt
    → let s1 = (reserve_wallet_for_transfer u i a s).1 in
      let s2 = (release_wallet_for_transfer u i a s1).1 in
      (has_reference s1.ledger_references (reserve_reference i) ≡ true)
      × (has_reference s2.ledger_references (release_reference i) ≡ true)
      × (wallet_balance u s2 ≡ wallet_balance u s)
unfolding reserve_wallet_for_transfer release_wallet_for_transfer
release-reserve_once u i a s new unreleased taken =
    let s0 = add_reference (reserve_reference i) s in
    let s1 = debit u (pos a) s0 in
    let s2 = add_reference (release_reference i) s1 in
    let enough : is_short (wallet_balance u s) a ≡ false = (ground arith) in
    rw (new, enough, unreleased)
      (
        ground arith,
        ground arith,
        grind (
          int_laws,
          wallet_balance-debit u u (pos a) s0,
          wallet_balance-same u s0 s refl,
          wallet_balance-credit u u (pos a) s2,
          wallet_balance-same u s2 s1 refl,
        ),
      )

-- Where the first of any number of reservations of a transfer goes through, these and then any number of
-- releases, each at least one and all of the same user and amount, end with the balance that the wallet
-- had before.
pub release-reserve :
    (user_id transfer_id amount n m : ℕ) (s : FundingStore)
    → has_reference s.ledger_references (reserve_reference transfer_id) ≡ false
    → has_reference s.ledger_references (release_reference transfer_id) ≡ false
    → (reserve_wallet_for_transfer user_id transfer_id amount s).0 ≡ ok tt
    → let reserve =
        λ (t : FundingStore). (reserve_wallet_for_transfer user_id transfer_id amount t).1 in
      let release =
        λ (t : FundingStore). (release_wallet_for_transfer user_id transfer_id amount t).1 in
      wallet_balance user_id (repeat (suc m) release (repeat (suc n) reserve s))
      ≡ wallet_balance user_id s
release-reserve u i a n m s new unreleased taken =
    let reserve = λ (t : FundingStore). (reserve_wallet_for_transfer u i a t).1 in
    let release = λ (t : FundingStore). (release_wallet_for_transfer u i a t).1 in
    let (r, q, e) = release-reserve_once u i a s new unreleased taken in
    rw
      (
        repeat_fixed n reserve (reserve s) (reserved_again u i a (reserve s) r),
        repeat_fixed m release (release (reserve s)) (released_again u i a (release (reserve s)) q),
      )
      e

find-put_new :
    (p : FundingTransactionRecord → Bool) (id : ℕ) (t : FundingTransactionRecord)
    (m : Map FundingTransactionRecord)
    → get id m ≡ none
    → find p (values m) ≡ none
    → p t ≡ true
    → find p (values (put id t m)) ≡ some t
find-put_new p id t [] g h e = ground arith
find-put_new p id t ((j, x) ∷ m) g h e = ground (arith, find-put_new p id t m)

reserve_transaction_new :
    (now : ℕ) (input : FundingRequest) (s : FundingStore)
    → find (is_replay input) (values s.transactions) ≡ none
    → reserve_transaction now input s ≡ (
      ok (record { reserved = new_transaction now input; created = true }),
      record s { transactions = put input.id (new_transaction now input) s.transactions },
    )
unfolding reserve_transaction
reserve_transaction_new now input s e = rw (e, reserve_transaction)

reserve_transaction_old :
    (now : ℕ) (input : FundingRequest) (s : FundingStore) {t : FundingTransactionRecord}
    → find (is_replay input) (values s.transactions) ≡ some t
    → reserve_transaction now input s ≡ (ok (record { reserved = t; created = false }), s)
unfolding reserve_transaction
reserve_transaction_old now input s e = rw (e, reserve_transaction)

-- A request under a new identifier never throws. A second one under the same user and idempotency
-- key, whatever else it says, gets the same record back and stores nothing.
pub reserve_transaction_replay :
    (now later : ℕ) (input again : FundingRequest) (s : FundingStore)
    → get input.id s.transactions ≡ none
    → again.user_id ≡ input.user_id
    → again.idempotency_key ≡ input.idempotency_key
    → let (_, s1) = reserve_transaction now input s in
      (r : Reservation) × ((reserve_transaction now input s).0 ≡ ok r)
      × (reserve_transaction later again s1
          ≡ (ok (record { reserved = r.reserved; created = false }), s1))
reserve_transaction_replay now later input again s fresh u k =
    elim (Option-cases (find (is_replay input) (values s.transactions))) [
      | inl new ↦
          let t = new_transaction now input in
          let made = reserve_transaction_new now input s new in
          let s1 = record s { transactions = put input.id t s.transactions } in
          let found =
            find-put_new (is_replay input) input.id t s.transactions fresh new (ground arith) in
          (
            record { reserved = t; created = true },
            rw made,
            rw made (reserve_transaction_old later again s1 (rw (u, k) found)),
          )
      | inr (t, old) ↦
          let kept = reserve_transaction_old now input s old in
          (
            record { reserved = t; created = false },
            rw kept,
            rw kept (reserve_transaction_old later again s (rw (u, k) old)),
          )
    ]

get-mark_default :
    (k now user_id id : ℕ) (m : Map FundingSourceRecord) {x : FundingSourceRecord}
    → get k m ≡ some x
    → get k (mark_default now user_id id m) ≡ some (mark_source now user_id id k x)
get-mark_default k now user_id id [] g = cc
get-mark_default k now user_id id ((j, y) ∷ m) {x} g = elim (Bool-cases (k == j)) [
  | inl here_ ↦
      let e : k ≡ j = ground arith in let e' : y ≡ x = ground arith in rw here_ (rw (e, e'))
  | inr other ↦ rw other (get-mark_default k now user_id id m {x = x} (rw other at g))
]

-- Once a source is made the default, exactly that one of the user's sources is the default, their other
-- fields but the time of the update are as they were, and so are the sources of other users.
pub set_default_source_unique :
    (now user_id id k : ℕ) (s : FundingStore) {x y : FundingSourceRecord}
    → (set_default_source now user_id id s).0 ≡ ok y
    → get k s.sources ≡ some x
    → (x' : FundingSourceRecord) × (get k (set_default_source now user_id id s).1.sources ≡ some x')
      × (x' ≡ (
          if x.user_id == user_id then record x { is_default = k == id; updated_at = now } else x))
unfolding set_default_source
set_default_source_unique now user_id id k s {x} {y} done g =
    elim (Option-cases (get_source user_id id s)) [
      | inl missing ↦ absurd (let e = rw (missing, set_default_source) at done in cc)
      | inr (z, found) ↦
          rw (found, set_default_source)
            (
              mark_source now user_id id k x,
              get-mark_default k now user_id id s.sources g,
              ground arith,
            )
    ]
