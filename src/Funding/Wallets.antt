-- ===== src/Funding/Wallets.antt =====
-- Every history of fundings leaves the wallets and the ledger in agreement.
use ticash.Prelude.{
  ℕ, ◌≡◌, ◌≢◌, refl, sym, arith, Bool, false, Option, none, some, [], ◌∷◌, Option-cases, inl, inr,
  ◌∙◌, List, ok, err,
}
use mathlib.Core.Path.{subst}
use ticash.Prelude.Lists.{find}
use ticash.Prelude.Maps.{Map, get, put, get-put, values, put-IsDistinct}
use ticash.Prelude.Int.{◌+ℤ◌, int_laws, +ℤ_cancel_right}
use ticash.Funding.Holds.{WalletCall, reserved_call, released_call, held}
use ticash.Funding.Types.{
  FundingStatus, FundingError, FundingTransactionRecord, reversed_reference, has_reference,
  insufficient_funds, FundingStore,
}
use ticash.Funding.Repository.{
  FundingRequest, is_replay, new_transaction, reset_funding_store, reserve_transaction,
  attach_provider_transfer,
}
use ticash.Funding.Settlement.{
  wallet_balance, apply_provider_status, reserve_wallet_for_transfer, release_wallet_for_transfer,
}
use ticash.Funding.Conservation.{
  counts, contribution, total, settled_total, total-put, wallet_balance-same,
}
use ticash.Funding.OtherCalls.{OtherCall, OtherCall-IsLedgered}
use ticash.Funding.HeldAmounts.{reserve-IsLedgered, release-IsLedgered}
use ticash.Funding.Reports.{IsLedgered, report-IsLedgered}

total-put_new :
    (u id : ℕ) (c : ℕ → Bool) (t : FundingTransactionRecord) (m : Map FundingTransactionRecord)
    → get id m ≡ none
    → c id ≡ false
    → total u c (put id t m) ≡ total u c m
total-put_new u id c t [] g h = rw h (grind int_laws)
total-put_new u id c t ((j, x) ∷ m) g h = ground (arith, total-put_new u id c t m)

-- A record is put where no reversal is booked, and the sum of the settled fundings stays.
module _ (log : List WalletCall) (id : ℕ) (t : FundingTransactionRecord) (s : FundingStore) where
  abbrev put_record : FundingStore
  put_record = record s { transactions = put id t s.transactions }

  put_record-IsLedgered :
      IsLedgered log s
      → has_reference s.ledger_references (reversed_reference id) ≡ false
      → ((u : ℕ) → settled_total u put_record ≡ settled_total u s)
      → IsLedgered log put_record
  put_record-IsLedgered v live same = record {
    distinct = put-IsDistinct id t s.transactions v.distinct;
    reversals_show = λ j u gj h.
        let at = get-put j id t s.transactions in
        let ne : j ≢ id = ground arith in v.reversals_show j u (ground arith) h;
    references_known =
        λ j absent. let at = get-put j id t s.transactions in v.references_known j (ground arith);
    tracked = v.tracked;
    balanced = λ u. rw (wallet_balance-same u put_record s refl) (v.balanced u ∙ sym (same u));
  }

-- A funding may be requested under an identifier that is new.
request-IsLedgered :
    (log : List WalletCall) (now : ℕ) (input : FundingRequest) (s : FundingStore)
    → get input.id s.transactions ≡ none
    → IsLedgered log s
    → IsLedgered log (reserve_transaction now input s).1
unfolding reserve_transaction
request-IsLedgered log now input s fresh v =
    elim (Option-cases (find (is_replay input) (values s.transactions))) [
      | inl new ↦
          let (not_settled, live) = v.references_known input.id fresh in
          let t = new_transaction now input in
          let c = counts s.ledger_references in
          rw (new, reserve_transaction)
            (put_record-IsLedgered log input.id t s v live
              (λ u. total-put_new u input.id c t s.transactions fresh (ground arith)))
      | inr (t, old) ↦ rw (old, reserve_transaction) v
    ]

-- The provider's transfer is attached before anything is reversed.
attach-IsLedgered :
    (log : List WalletCall) (now id transfer_id url : ℕ) (status : FundingStatus) (s : FundingStore)
    → has_reference s.ledger_references (reversed_reference id) ≡ false
    → IsLedgered log s
    → IsLedgered log (attach_provider_transfer now id transfer_id url status s).1
unfolding attach_provider_transfer
attach-IsLedgered log now id transfer_id url status s live v =
    elim (Option-cases (get id s.transactions)) [
      | inl unknown ↦ rw (unknown, attach_provider_transfer) v
      | inr (t, g) ↦
          let c = counts s.ledger_references in
          let t' = record t {
            provider_transfer_id = some transfer_id;
            provider_transfer_url = some url;
            status = status;
            updated_at = now;
          } in
          rw (g, attach_provider_transfer)
            (put_record-IsLedgered log id t' s v live (λ u. sym (
              +ℤ_cancel_right _ _ (contribution u c id t)
                (total-put u id c c t t' s.transactions v.distinct g (λ j ne. refl)))))
    ]

-- The calls of the repository, but for those that hold and release a wallet's amounts: a request under a
-- new identifier, the provider's transfer attached to it before any reversal, a status that the provider
-- reports, and the calls about customers, sources and webhook events.
pub data Step (s : FundingStore) : FundingStore → Type 0 where
  requested :
      (now : ℕ) (input : FundingRequest)
      → get input.id s.transactions ≡ none
      → Step s (reserve_transaction now input s).1
  attached :
      (now id transfer_id url : ℕ) (status : FundingStatus)
      → has_reference s.ledger_references (reversed_reference id) ≡ false
      → Step s (attach_provider_transfer now id transfer_id url status s).1
  reported :
      (now id : ℕ) (status : FundingStatus) (failure : Option FundingError)
      → Step s (apply_provider_status now id status failure s).1
  elsewhere : {s' : FundingStore} → OtherCall s s' → Step s s'

-- A history from the empty store of such steps and of the calls that hold and release the wallets'
-- amounts, which are kept in the log if they return.
pub data Reached : List WalletCall → FundingStore → Type 0 where
  start : Reached [] reset_funding_store
  step : {log : List WalletCall} {s s' : FundingStore} → Reached log s → Step s s' → Reached log s'
  reserved :
      {log : List WalletCall} {s : FundingStore}
      → Reached log s
      → (u i a : ℕ) → (reserve_wallet_for_transfer u i a s).0 ≡ ok tt
      → Reached (reserved_call u i a ∷ log) (reserve_wallet_for_transfer u i a s).1
  refused :
      {log : List WalletCall} {s : FundingStore}
      → Reached log s
      → (u i a : ℕ) → (reserve_wallet_for_transfer u i a s).0 ≡ err insufficient_funds
      → Reached log (reserve_wallet_for_transfer u i a s).1
  released :
      {log : List WalletCall} {s : FundingStore}
      → Reached log s
      → (u i a : ℕ) → Reached (released_call u i a ∷ log) (release_wallet_for_transfer u i a s).1

Step-IsLedgered :
    (log : List WalletCall) {s s' : FundingStore} → Step s s' → IsLedgered log s → IsLedgered log s'
Step-IsLedgered log {s} (requested now input fresh) v = request-IsLedgered log now input s fresh v
Step-IsLedgered log {s} (attached now id i url status live) v =
    attach-IsLedgered log now id i url status s live v
Step-IsLedgered log {s} (reported now id status failure) v =
    report-IsLedgered log now id status failure s v
Step-IsLedgered log (elsewhere c) v = OtherCall-IsLedgered log c v

refused-same :
    (u i a : ℕ) (s : FundingStore)
    → (reserve_wallet_for_transfer u i a s).0 ≡ err insufficient_funds
    → (reserve_wallet_for_transfer u i a s).1 ≡ s
unfolding reserve_wallet_for_transfer
refused-same u i a s h = ground arith

pub Reached-IsLedgered :
    {log : List WalletCall} {s : FundingStore} → Reached log s → IsLedgered log s
unfolding reset_funding_store wallet_balance
Reached-IsLedgered start = record {
  distinct = tt;
  reversals_show = λ id t g h. cc;
  references_known = λ id absent. (refl, refl);
  tracked = record { reserves = λ i. refl; releases = λ i. refl };
  balanced = λ u. grind int_laws;
}
Reached-IsLedgered (step {log} r st) = Step-IsLedgered log st (Reached-IsLedgered r)
Reached-IsLedgered (reserved {log} {s} r u i a e) =
    reserve-IsLedgered log u i a s e (Reached-IsLedgered r)
Reached-IsLedgered (refused {log} {s} r u i a e) =
    subst (IsLedgered log) (sym (refused-same u i a s e)) (Reached-IsLedgered r)
Reached-IsLedgered (released {log} {s} r u i a) =
    release-IsLedgered log u i a s (Reached-IsLedgered r)

-- After any calls of the repository, in whatever order and however often, where a request has a new
-- identifier and the provider's transfer is attached before any reversal, every wallet holds the sum of the user's fundings that the ledger shows as settled and not as
-- reversed, less what transfers hold: each transfer's first reservation, until its first release.
pub wallet_balance-eq-settled_total :
    (log : List WalletCall) (s : FundingStore) (user_id : ℕ)
    → Reached log s
    → wallet_balance user_id s +ℤ held user_id log ≡ settled_total user_id s
wallet_balance-eq-settled_total log s user_id r = (Reached-IsLedgered r).balanced user_id
