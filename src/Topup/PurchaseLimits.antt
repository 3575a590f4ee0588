-- ===== src/Topup/PurchaseLimits.antt =====
-- `assertPurchaseLimits` and `temporaryPurchaseAccess` of apps/api/src/topup/fraud-policy.ts. Amounts are
-- whole cents and times are milliseconds; "at least `at` less the window" is written as a sum.
use ticash.Prelude.{
  ℕ, ◌+◌, ◌-◌, ◌/◌, Bool, not, ◌&&◌, ◌||◌, Option, none, some, List, [], ◌∷◌, ◌==◌, ltb, leb,
  if◌then◌else◌, ok, err,
}
use ticash.Prelude.Lists.{length, filter, find, sum_of}
use ticash.Topup.Errors.{
  PurchaseAccess, temporary_limit, change_amount, recharge_limit_reached, Outcome,
}

pub record PurchaseHistory : Type 0 where
  pub created_at : ℕ
  pub total_charge_cents : ℕ
  pub is_failed : Bool
  pub attempt_exempt : Bool

abbrev pub hour_ms : ℕ
hour_ms = 3600000

abbrev pub day_ms : ℕ
day_ms = 86400000

-- `Date.parse(r.createdAt) >= at - window`
abbrev pub is_within : ℕ → ℕ → PurchaseHistory → Bool
is_within window at r = leb at (r.created_at + window)

abbrev pub day_of : ℕ → List PurchaseHistory → List PurchaseHistory
day_of at history = filter (is_within day_ms at) history

abbrev pub attempts_of : List PurchaseHistory → List PurchaseHistory
attempts_of day = filter (λ r. not r.attempt_exempt) day

abbrev pub hour_of : ℕ → List PurchaseHistory → List PurchaseHistory
hour_of at day = filter (is_within hour_ms at) (attempts_of day)

abbrev pub charged : List PurchaseHistory → ℕ
charged day = sum_of (λ r. r.total_charge_cents) day

abbrev pub failed_of : List PurchaseHistory → List PurchaseHistory
failed_of hour = filter (λ r. r.is_failed) hour

-- The limits on what was bought in the day before.
unfoldable pub over_limits : ℕ → ℕ → List PurchaseHistory → Bool
over_limits amount at day =
    ltb 10000 amount
    || ltb 20000 (charged day + amount)
    || leb 3 (length (hour_of at day))
    || leb 10 (length (attempts_of day))
    || leb 3 (length (failed_of (hour_of at day)))

abbrev pub blocked : ℕ → List PurchaseHistory → ℕ → Bool
blocked amount history at = over_limits amount at (day_of at history)

-- The ends of the windows of the history.
abbrev pub window_ends : List PurchaseHistory → List ℕ
window_ends [] = []
window_ends (r ∷ rs) = (r.created_at + hour_ms + 1) ∷ (r.created_at + day_ms + 1) ∷ window_ends rs

-- `[...new Set(times)].sort((a, b) => a - b)`
abbrev pub insert : ℕ → List ℕ → List ℕ
insert x [] = x ∷ []
insert x (y ∷ ys) =
    let rest = insert x ys in if x == y then y ∷ ys else if ltb x y then x ∷ y ∷ ys else y ∷ rest

abbrev pub sort : List ℕ → List ℕ
sort [] = []
sort (x ∷ xs) = insert x (sort xs)

unfoldable pub retry_at : ℕ → List PurchaseHistory → ℕ → Option ℕ
retry_at amount history now =
    if ltb 10000 amount
    then none
    else find (λ at. ltb now at && not (blocked amount history at)) (sort (window_ends history))

abbrev pub temporary_purchase_access : ℕ → ℕ → PurchaseAccess
temporary_purchase_access retry now = record {
  mode = temporary_limit;
  server_time = now;
  retry_at = some retry;
  retry_after_seconds = some ((retry - now + 999) / 1000);
}

abbrev pub access_of : ℕ → Option ℕ → PurchaseAccess
access_of now none = record {
  mode = change_amount;
  server_time = now;
  retry_at = none;
  retry_after_seconds = none;
}
access_of now (some retry) = temporary_purchase_access retry now

unfoldable pub assert_purchase_limits : ℕ → List PurchaseHistory → ℕ → Outcome (Unit {0})
assert_purchase_limits amount history now =
    if blocked amount history now
    then err (record {
      code = recharge_limit_reached;
      status_code = 429;
      purchase_access = some (access_of now (retry_at amount history now));
    })
    else ok tt
