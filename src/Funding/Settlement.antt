-- ===== src/Funding/Settlement.antt =====
-- The money of `MemoryFundingRepository` (apps/api/src/funding/repository.ts): the status that the
-- provider reports, the ledger references that make a settlement happen once, and the wallets.
use ticash.Prelude.{
  ℕ, Bool, true, false, not, ◌&&◌, ◌||◌, Option, none, some, ok, err, ◌∷◌, if◌then◌else◌,
}
use ticash.Prelude.Maps.{get, put}
use ticash.Prelude.Int.{ℤ, pos, ◌+ℤ◌, ◌-ℤ◌, ltb_ℤ}
use ticash.Funding.Types.{
  FundingStatus, pending, processing, completed, failed, cancelled, reversed, FundingError,
  funding_not_found, insufficient_funds, FundingTransactionRecord, Reference, settled_reference,
  reversed_reference, reserve_reference, release_reference, has_reference, FundingStore,
}
use ticash.Funding.Repository.{Method}

abbrev pub amount_or_zero : Option ℤ → ℤ
amount_or_zero none = pos 0
amount_or_zero (some x) = x

unfoldable pub wallet_balance : ℕ → FundingStore → ℤ
wallet_balance user_id s = amount_or_zero (get user_id s.wallet_balances)

-- The first `if` of `applyProviderStatus`: the status that a record in the first state takes when
-- the provider reports the second.
abbrev pub effective_status : FundingStatus → FundingStatus → FundingStatus
effective_status reversed status = reversed
effective_status completed failed = failed
effective_status completed reversed = reversed
effective_status completed status = completed
effective_status failed reversed = reversed
effective_status failed status = failed
effective_status cancelled reversed = reversed
effective_status cancelled status = cancelled
effective_status pending status = status
effective_status processing status = status

abbrev pub is_undone : FundingStatus → Bool
is_undone failed = true
is_undone reversed = true
is_undone _ = false

-- The second `if`: what was settled can only be reversed.
abbrev pub final_status : Bool → FundingStatus → FundingStatus → FundingStatus
final_status was_settled old status =
    if is_undone status && was_settled then reversed else effective_status old status

-- `memoryWalletBalances.set(userId, (memoryWalletBalances.get(userId) ?? 0) + delta)`
abbrev pub credit : ℕ → ℤ → FundingStore → FundingStore
credit user_id delta s = record s {
  wallet_balances =
      put user_id (amount_or_zero (get user_id s.wallet_balances) +ℤ delta) s.wallet_balances;
}

abbrev pub debit : ℕ → ℤ → FundingStore → FundingStore
debit user_id delta s = record s {
  wallet_balances =
      put user_id (amount_or_zero (get user_id s.wallet_balances) -ℤ delta) s.wallet_balances;
}

abbrev pub add_reference : Reference → FundingStore → FundingStore
add_reference r s = record s { ledger_references = r ∷ s.ledger_references }

-- `if (effectiveStatus === 'COMPLETED' && …)`
abbrev pub settle : ℕ → FundingTransactionRecord → FundingStatus → FundingStore → FundingStore
settle id t completed s =
    if has_reference s.ledger_references (settled_reference id)
    then s
    else credit t.user_id (pos t.amount) (add_reference (settled_reference id) s)
settle id t _ s = s

-- `if (effectiveStatus === 'REVERSED' && …)`
abbrev pub reverse_settlement :
    ℕ → FundingTransactionRecord → FundingStatus → FundingStore → FundingStore
reverse_settlement id t reversed s =
    if has_reference s.ledger_references (reversed_reference id)
    then s
    else let s' = add_reference (reversed_reference id) s in
      if has_reference s'.ledger_references (settled_reference id)
      then debit t.user_id (pos t.amount) s'
      else s'
reverse_settlement id t _ s = s

abbrev pub apply_to :
    ℕ
    → ℕ
    → FundingStatus
    → Option FundingError
    → FundingTransactionRecord
    → FundingStore
    → FundingTransactionRecord × FundingStore
apply_to now id status failure t s =
    let final =
      final_status (has_reference s.ledger_references (settled_reference id)) t.status status in
    let s' = reverse_settlement id t final (settle id t final s) in
    let updated = record t { status = final; failure_code = failure; updated_at = now } in
    (updated, record s' { transactions = put id updated s'.transactions })

unfoldable pub apply_provider_status :
    ℕ → ℕ → FundingStatus → Option FundingError → Method FundingTransactionRecord
apply_provider_status now id status failure s = elim (get id s.transactions) [
  | none ↦ (err funding_not_found, s)
  | some t ↦ let (updated, s') = apply_to now id status failure t s in (ok updated, s')
]

-- `available + 0.0001 < amount`: on whole cents the 0.0001 dollars only absorb the rounding of sums.
abbrev pub is_short : ℤ → ℕ → Bool
is_short available amount = ltb_ℤ available (pos amount)

unfoldable pub reserve_wallet_for_transfer : ℕ → ℕ → ℕ → Method (Unit {0})
unfolding wallet_balance ◌+ℤ◌
reserve_wallet_for_transfer user_id transfer_id amount s =
    if has_reference s.ledger_references (reserve_reference transfer_id)
    then (ok tt, s)
    else if is_short (wallet_balance user_id s) amount
    then (err insufficient_funds, s)
    else (ok tt, debit user_id (pos amount) (add_reference (reserve_reference transfer_id) s))

unfoldable pub release_wallet_for_transfer : ℕ → ℕ → ℕ → Method (Unit {0})
release_wallet_for_transfer user_id transfer_id amount s =
    if not (has_reference s.ledger_references (reserve_reference transfer_id))
      || has_reference s.ledger_references (release_reference transfer_id)
    then (ok tt, s)
    else (ok tt, credit user_id (pos amount) (add_reference (release_reference transfer_id) s))
