-- ===== src/Funding/Laws.antt =====
-- What single calls of the repository promise: replays, conflicts, defaults and wallet limits.
use ticash.Prelude.{ℕ, ◌≡◌, ◌⊎◌, refl, ◌∙◌, arith, Bool, Option, some}
use ticash.Prelude.Maps.{get, get-put_self}
use ticash.Funding.Types.{
  FundingStatus, pending, processing, completed, failed, cancelled, reversed, FundingError,
  FundingTransactionRecord, settled_reference, has_reference, FundingStore,
}
use ticash.Funding.Settlement.{apply_provider_status, final_status}
use ticash.Funding.Conservation.{posted}

-- The moves of a funding's status: what is reversed stays so, what has failed or was cancelled can
-- only be reversed, and what was completed is no longer in progress or cancelled.
abbrev pub IsMove : FundingStatus → FundingStatus → Type 0
IsMove reversed new = new ≡ reversed
IsMove failed new = (new ≡ failed) ⊎ (new ≡ reversed)
IsMove cancelled new = (new ≡ cancelled) ⊎ (new ≡ reversed)
IsMove completed new = (new ≡ completed) ⊎ ((new ≡ failed) ⊎ (new ≡ reversed))
IsMove pending new = Unit
IsMove processing new = Unit

final-IsMove : (b : Bool) (old status : FundingStatus) → IsMove old (final_status b old status)
final-IsMove b reversed status = ground arith
final-IsMove b failed status = ground arith
final-IsMove b cancelled status = ground arith
final-IsMove b completed status = ground arith
final-IsMove b pending status = tt
final-IsMove b processing status = tt

-- The record that a report leaves.
abbrev pub reported :
    ℕ
    → ℕ
    → FundingStatus
    → Option FundingError
    → FundingTransactionRecord
    → FundingStore
    → FundingTransactionRecord
reported now id status failure t s =
    let b = has_reference s.ledger_references (settled_reference id) in
    record t { status = final_status b t.status status; failure_code = failure; updated_at = now }

apply_provider_status_known :
    (now id : ℕ) (status : FundingStatus) (failure : Option FundingError) (s : FundingStore)
    {t : FundingTransactionRecord}
    → get id s.transactions ≡ some t
    → get id (apply_provider_status now id status failure s).1.transactions
      ≡ some (reported now id status failure t s)
unfolding apply_provider_status
apply_provider_status_known now id status failure s g =
    rw (g, apply_provider_status) (get-put_self id _ _)

-- A report moves the funding's status along the allowed moves.
pub apply_provider_status_moves :
    (now id : ℕ) (status : FundingStatus) (failure : Option FundingError) (s : FundingStore)
    {t t' : FundingTransactionRecord}
    → get id s.transactions ≡ some t
    → get id (apply_provider_status now id status failure s).1.transactions ≡ some t'
    → IsMove t.status t'.status
apply_provider_status_moves now id status failure s {t} {t'} g g' =
    let known = apply_provider_status_known now id status failure s g in
    let b = has_reference s.ledger_references (settled_reference id) in
    let e : final_status b t.status status ≡ t'.status = cc in
    rw (← e) (final-IsMove b t.status status)

-- Booking an outcome again changes nothing.
posted_again :
    (id : ℕ) (t t' : FundingTransactionRecord) (f : FundingStatus) (s s' : FundingStore)
    → s'.ledger_references ≡ (posted id t f s).ledger_references
    → ((posted id t' f s').ledger_references ≡ s'.ledger_references)
      × ((posted id t' f s').wallet_balances ≡ s'.wallet_balances)
posted_again id t t' completed s s' e = (ground arith, ground arith)
posted_again id t t' reversed s s' e = (ground arith, ground arith)
posted_again id t t' _ s s' e = (refl, refl)

final_again :
    (id : ℕ) (t : FundingTransactionRecord) (old status : FundingStatus) (s : FundingStore)
    → let b = has_reference s.ledger_references (settled_reference id) in
      let f = final_status b old status in
      final_status
        (has_reference (posted id t f s).ledger_references (settled_reference id))
        f
        status
      ≡ f
final_again id t old status s = ground arith

apply_provider_status_posts :
    (now id : ℕ) (status : FundingStatus) (failure : Option FundingError) (s : FundingStore)
    {t : FundingTransactionRecord}
    → get id s.transactions ≡ some t
    → let f =
        final_status (has_reference s.ledger_references (settled_reference id)) t.status status in
      let s' = (apply_provider_status now id status failure s).1 in
      (s'.wallet_balances ≡ (posted id t f s).wallet_balances)
      × (s'.ledger_references ≡ (posted id t f s).ledger_references)
unfolding apply_provider_status
apply_provider_status_posts now id status failure s g =
    (rw (g, apply_provider_status), rw (g, apply_provider_status))

-- The same report twice leaves the wallets, the ledger and the status as the first one does.
pub apply_provider_status_replay :
    (now later id : ℕ) (status : FundingStatus) (failure : Option FundingError) (s : FundingStore)
    {t t' t'' : FundingTransactionRecord}
    → get id s.transactions ≡ some t
    → get id (apply_provider_status now id status failure s).1.transactions ≡ some t'
    → get id
        (apply_provider_status later id status failure
          (apply_provider_status now id status failure s).1).1.transactions
      ≡ some t''
    → let s' = (apply_provider_status now id status failure s).1 in
      let s'' = (apply_provider_status later id status failure s').1 in
      (s''.wallet_balances ≡ s'.wallet_balances)
      × (s''.ledger_references ≡ s'.ledger_references)
      × (t''.status ≡ t'.status)
apply_provider_status_replay now later id status failure s {t} {t'} {t''} g g' g'' =
    let f =
      final_status (has_reference s.ledger_references (settled_reference id)) t.status status in
    let t1 = reported now id status failure t s in
    let s1 = (apply_provider_status now id status failure s).1 in
    let (w1, r1) = apply_provider_status_posts now id status failure s g in
    let k1 = apply_provider_status_known now id status failure s g in
    let k2 = apply_provider_status_known later id status failure s1 k1 in
    let (w2, r2) = apply_provider_status_posts later id status failure s1 k1 in
    let again = posted_again id t t1 f s s1 r1 in
    let stays : (reported later id status failure t1 s1).status ≡ f =
      rw r1 (final_again id t t.status status s) in
    let e' : t'.status ≡ f = cc in
    let e'' : t''.status ≡ f = cc in (w2 ∙ rw stays again.1, r2 ∙ rw stays again.0, cc)
