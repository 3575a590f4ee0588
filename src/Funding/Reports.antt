-- ===== src/Funding/Reports.antt =====
-- What a provider's report (`applyProviderStatus` of apps/api/src/funding/repository.ts) does to the
-- wallets and the ledger.
use ticash.Prelude.{
  ℕ, ◌≡◌, ◌≢◌, refl, arith, Bool, true, false, Option, none, some, List, ◌==◌, Bool-cases,
  Option-cases, inl, inr,
}
use ticash.Prelude.Maps.{get, put, get-put, IsDistinct, put-IsDistinct}
use mathlib.Core.Path.{ap, ◌∙◌}
use ticash.Prelude.Int.{◌+ℤ◌, int_laws, pos_part, neg_part}
use ticash.Funding.Holds.{WalletCall, held, IsTracked}
use ticash.Funding.Types.{
  FundingStatus, reversed, FundingError, FundingTransactionRecord, settled_reference,
  reserve_reference, release_reference, reversed_reference, has_reference, FundingStore,
}
use ticash.Funding.Settlement.{wallet_balance, apply_provider_status, final_status}
use ticash.Funding.Conservation.{
  counts, contribution, settled_total, posted, posted-transactions, posted-counts, posted-wallet,
  total-put, wallet_balance-same,
}

-- A reversal that is in the ledger is in the record.
abbrev pub ReversalsShow : FundingStore → Type 0
ReversalsShow s =
    (id : ℕ) (t : FundingTransactionRecord)
    → get id s.transactions ≡ some t
    → has_reference s.ledger_references (reversed_reference id) ≡ true
    → t.status ≡ reversed

-- The ledger names only fundings that exist.
abbrev pub ReferencesKnown : FundingStore → Type 0
ReferencesKnown s =
    (id : ℕ)
    → get id s.transactions ≡ none
    → (has_reference s.ledger_references (settled_reference id) ≡ false)
      × (has_reference s.ledger_references (reversed_reference id) ≡ false)

-- The wallets hold what is settled, less what is held for transfers.
pub record IsLedgered (log : List WalletCall) (s : FundingStore) : Type 0 where
  pub distinct : IsDistinct s.transactions
  pub reversals_show : ReversalsShow s
  pub references_known : ReferencesKnown s
  pub tracked : IsTracked log s.ledger_references
  pub balanced :
      (user_id : ℕ) → wallet_balance user_id s +ℤ held user_id log ≡ settled_total user_id s

final-reversed :
    (b : Bool) (old status : FundingStatus) → old ≡ reversed → final_status b old status ≡ reversed
final-reversed b old status h = ground arith

posted-reserve :
    (id i : ℕ) (t : FundingTransactionRecord) (f : FundingStatus) (s : FundingStore)
    → has_reference (posted id t f s).ledger_references (reserve_reference i)
      ≡ has_reference s.ledger_references (reserve_reference i)
posted-reserve id i t f s = ground arith

posted-release :
    (id i : ℕ) (t : FundingTransactionRecord) (f : FundingStatus) (s : FundingStore)
    → has_reference (posted id t f s).ledger_references (release_reference i)
      ≡ has_reference s.ledger_references (release_reference i)
posted-release id i t f s = ground arith

-- A report on the record `t` that ends in the status `f`.
module _ (id : ℕ) (t : FundingTransactionRecord) (f : FundingStatus) (s : FundingStore) where
  posted-others :
      (j : ℕ)
      → j ≢ id
      → (has_reference (posted id t f s).ledger_references (settled_reference j)
          ≡ has_reference s.ledger_references (settled_reference j))
        × (has_reference (posted id t f s).ledger_references (reversed_reference j)
            ≡ has_reference s.ledger_references (reversed_reference j))
  posted-others j h = (ground arith, ground arith)

  posted-reversed :
      (has_reference s.ledger_references (reversed_reference id) ≡ true → f ≡ reversed)
      → has_reference (posted id t f s).ledger_references (reversed_reference id) ≡ true
      → f ≡ reversed
  posted-reversed r h = ground arith

module _ (log : List WalletCall) (id : ℕ) (t t' : FundingTransactionRecord) (f : FundingStatus)
    (s : FundingStore) (v : IsLedgered log s) (g : get id s.transactions ≡ some t)
    (r : has_reference s.ledger_references (reversed_reference id) ≡ true → f ≡ reversed)
    (ends : t'.status ≡ f) (same_user : t'.user_id ≡ t.user_id)
    (same_amount : t'.amount ≡ t.amount) where
  written : FundingStore
  written = let p = posted id t f s in record p { transactions = put id t' p.transactions }

  written-balanced : (u : ℕ) → wallet_balance u written +ℤ held u log ≡ settled_total u written
  unfolding written wallet_balance
  written-balanced u =
      let cs = counts s.ledger_references in
      let cp = counts (posted id t f s).ledger_references in
      let e : contribution u cp id t' ≡ contribution u cp id t = rw (same_user, same_amount) in
      let moved =
        total-put u id cs cp t t' s.transactions v.distinct g
          (λ j ne. posted-counts id j t f s ne) in
      let paid = posted-wallet u id t f s r in
      let same = wallet_balance-same u written (posted id t f s) refl in
      let before = v.balanced u in
      rw (same, posted-transactions id t f s)
        (omega (
          int_laws,
          ap pos_part paid,
          ap neg_part paid,
          ap pos_part moved,
          ap neg_part moved,
          ap pos_part e,
          ap neg_part e,
          ap pos_part before,
          ap neg_part before,
        ))

  written-IsTracked : IsTracked log written.ledger_references
  unfolding written
  written-IsTracked = record {
    reserves = λ i. posted-reserve id i t f s ∙ v.tracked.reserves i;
    releases = λ i. posted-release id i t f s ∙ v.tracked.releases i;
  }

  written-shows : ReversalsShow written
  unfolding written
  written-shows j u gj h =
      let at = get-put j id t' s.transactions in
      let same = posted-transactions id t f s in
      elim (Bool-cases (j == id)) [
        | inl here_ ↦
            let e : j ≡ id = ground arith in
            let same_record : t' ≡ u = ground arith in
            let is_reversed = posted-reversed id t f s r (rw e at h) in cc
        | inr other ↦
            let ne : j ≢ id = ground arith in
            let kept = posted-others id t f s j ne in
            v.reversals_show j u (ground arith) (rw kept.1 at h)
      ]

  written-known : ReferencesKnown written
  unfolding written
  written-known j absent =
      let at = get-put j id t' s.transactions in
      let same = posted-transactions id t f s in
      let ne : j ≢ id = ground arith in
      let kept = posted-others id t f s j ne in
      let before = v.references_known j (ground arith) in (cc, cc)

  written-IsLedgered : IsLedgered log written
  unfolding written
  written-IsLedgered = record {
    distinct = rw (posted-transactions id t f s) (put-IsDistinct id t' s.transactions v.distinct);
    reversals_show = written-shows;
    references_known = written-known;
    tracked = written-IsTracked;
    balanced = written-balanced;
  }

pub report-IsLedgered :
    (log : List WalletCall) (now id : ℕ) (status : FundingStatus) (failure : Option FundingError)
    (s : FundingStore)
    → IsLedgered log s
    → IsLedgered log (apply_provider_status now id status failure s).1
unfolding apply_provider_status written
report-IsLedgered log now id status failure s v = elim (Option-cases (get id s.transactions)) [
  | inl unknown ↦ rw (unknown, apply_provider_status) v
  | inr (t, g) ↦
      let b = has_reference s.ledger_references (settled_reference id) in
      let f = final_status b t.status status in
      let t' = record t { status = f; failure_code = failure; updated_at = now } in
      let r = λ (h : has_reference s.ledger_references (reversed_reference id) ≡ true).
        final-reversed b t.status status (v.reversals_show id t g h) in
      rw (g, apply_provider_status) (written-IsLedgered log id t t' f s v g r refl refl refl)
]
