-- ===== src/Security/Limits.antt =====
-- Which transfers the limits of apps/api/src/security.ts allow.
use ticash.Prelude.{
  ℕ, ◌⊎◌, ◌+◌, ◌≤◌, ◌≡◌, ◌↔◌, arith, refl, Bool, false, ◌||◌, ltb, if◌then◌else◌, Option, none,
  some, List, [], ◌∷◌, ok,
}
use ticash.Security.Transfers.{HistoricalTransfer, hours_ms, sum_since, enforce_transaction_limits}

-- What was sent from `window` milliseconds before `now` on, without what failed or was reversed.
pub sent_within : ℕ → ℕ → List HistoricalTransfer → ℕ
sent_within now window [] = 0
sent_within now window (t ∷ ts) =
    let rest = sent_within now window ts in
    if t.is_undone || ltb (t.created_at + window) now then rest else t.amount + rest

sum_since-sent_within :
    (now window : ℕ) (ts : List HistoricalTransfer) (amount : ℕ)
    → sum_since now window ts amount ≡ sent_within now window ts + amount
unfolding sent_within
sum_since-sent_within now window [] amount = refl
sum_since-sent_within now window (t ∷ ts) amount =
    ground (arith, sum_since-sent_within now window ts amount)

-- A total stays within a limit, if there is one.
abbrev pub IsWithin : Option ℕ → ℕ → Type 0
IsWithin none total = Unit
IsWithin (some limit) total = total ≤ limit

-- A transfer is allowed exactly when limits are off, or its amount is within the limit of one transfer,
-- and its amount with what was sent in the last day, week and thirty days, without what failed or was
-- reversed, is within the daily, the weekly and the monthly limit.
pub enforce_transaction_limits_iff :
    (enabled : Bool) (one day week month : Option ℕ) (history : List HistoricalTransfer)
    (now amount : ℕ)
    → (enforce_transaction_limits
          (record {
            is_enabled = enabled;
            per_transaction = one;
            daily = day;
            weekly = week;
            monthly = month;
          })
          history
          now
          amount
        ≡ ok tt)
      ↔ ((enabled ≡ false)
          ⊎ (IsWithin one amount
              × IsWithin day (sent_within now 86400000 history + amount)
              × IsWithin week (sent_within now 604800000 history + amount)
              × IsWithin month (sent_within now 2592000000 history + amount)))
unfolding enforce_transaction_limits
enforce_transaction_limits_iff enabled one day week month history now amount =
    let d = sum_since-sent_within now (hours_ms 24) history amount in
    let w = sum_since-sent_within now (hours_ms 168) history amount in
    let m = sum_since-sent_within now (hours_ms 720) history amount in
    (λ h. ground (arith, d, w, m), λ h. ground (arith, d, w, m))
