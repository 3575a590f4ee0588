-- ===== src/Security/Transfers.antt =====
-- `enforceTransactionLimits` of apps/api/src/security.ts. Amounts and limits are whole cents, on
-- which the 0.0001 dollars of the code's comparison only absorb the rounding of sums; times are
-- milliseconds.
use ticash.Prelude.{
  ℕ, ◌+◌, ◌*◌, Bool, false, not, Option, none, some, List, [], ◌∷◌, ltb, leb, if◌then◌else◌, ok,
  err, Result,
}
use ticash.Prelude.Lists.{filter, find, sum_of}
use ticash.Security.Logins.{
  SecurityError, per_transaction_limit_exceeded, daily_limit_exceeded, weekly_limit_exceeded,
  monthly_limit_exceeded,
}

pub record HistoricalTransfer : Type 0 where
  pub amount : ℕ
  pub recipient_id : ℕ
  pub created_at : ℕ
  -- the status is FAILED or REVERSED
  pub is_undone : Bool

pub record TransferLimits : Type 0 where
  pub is_enabled : Bool
  pub per_transaction : Option ℕ
  pub daily : Option ℕ
  pub weekly : Option ℕ
  pub monthly : Option ℕ

abbrev pub hours_ms : ℕ → ℕ
hours_ms n = n * 3600000

abbrev pub included : List HistoricalTransfer → List HistoricalTransfer
included history = filter (λ t. not t.is_undone) history

-- `sumSince`, with the new transfer's amount
abbrev pub sum_since : ℕ → ℕ → List HistoricalTransfer → ℕ → ℕ
sum_since now window history amount =
    sum_of (λ t. t.amount) (filter (λ t. leb now (t.created_at + window)) (included history))
    + amount

abbrev pub Limit : Type 0
Limit = Option ℕ × ℕ × SecurityError

abbrev pub checks_of : TransferLimits → List HistoricalTransfer → ℕ → ℕ → List Limit
checks_of limits history now amount =
    (limits.per_transaction, amount, per_transaction_limit_exceeded)
    ∷ (limits.daily, sum_since now (hours_ms 24) history amount, daily_limit_exceeded)
    ∷ (limits.weekly, sum_since now (hours_ms 168) history amount, weekly_limit_exceeded)
    ∷ (limits.monthly, sum_since now (hours_ms 720) history amount, monthly_limit_exceeded)
    ∷ []

-- `limit !== undefined && total > limit + 0.0001`
abbrev pub is_exceeded : Limit → Bool
is_exceeded (none, total, _) = false
is_exceeded (some limit, total, _) = ltb limit total

unfoldable pub enforce_transaction_limits :
    TransferLimits → List HistoricalTransfer → ℕ → ℕ → Result SecurityError (Unit {0})
enforce_transaction_limits limits history now amount =
    if not limits.is_enabled
    then ok tt
    else elim (find is_exceeded (checks_of limits history now amount)) [
      | none ↦ ok tt
      | some (_, _, code) ↦ err code
    ]
