-- ===== src/Security/Tests.antt =====
-- Sign-ins and transfers of the tests (apps/api/src/security.ts).
use ticash.Prelude.{
  ℕ, ◌⊎◌, ◌+◌, ◌*◌, ◌≡◌, ◌↔◌, refl, true, false, some, none, List, [], ◌∷◌, ltb, if◌then◌else◌, ok,
  err,
}
use ticash.Security.Logins.{
  account_temporarily_locked, assert_allowed, record_failure, record_failures, daily_limit_exceeded,
  clear,
}
use ticash.Security.Lockouts.{record_failure_locks}
use ticash.Security.Transfers.{HistoricalTransfer, enforce_transaction_limits}
use ticash.Security.Limits.{sent_within, IsWithin, enforce_transaction_limits_iff}

abbrev four_failures : List ℕ
four_failures = 1000 ∷ 2000 ∷ 3000 ∷ 4000 ∷ []

-- The fifth failure at 5000, with a lock of 15 minutes.
record_failure_locks_example :
    let before = record_failures 5 15 four_failures 7 [] in
    let locked = (record_failure 5 15 5000 7 before).1 in
    assert_allowed 5 15 904999 7 locked
    ≡ (if ltb 904999 (5000 + 15 * 60000) then err account_temporarily_locked else ok tt)
record_failure_locks_example = record_failure_locks 5 15 four_failures 5000 904999 7 [] refl refl

cleared :
    assert_allowed 5 15 6000 7 (clear 5 15 7 (record_failures 5 15 (5000 ∷ four_failures) 7 []))
    ≡ ok tt
unfolding assert_allowed clear record_failure
cleared = refl

-- $4000.00 an hour before.
abbrev earlier : List HistoricalTransfer
earlier =
    record { amount = 400000; recipient_id = 1; created_at = 100000000; is_undone = false } ∷ []

enforce_transaction_limits_iff_example :
    (enforce_transaction_limits
        (record {
          is_enabled = true;
          per_transaction = some 500000;
          daily = some 600000;
          weekly = none;
          monthly = none;
        })
        earlier
        103600000
        300000
      ≡ ok tt)
    ↔ ((true ≡ false)
        ⊎ (IsWithin (some 500000) 300000
            × IsWithin (some 600000) (sent_within 103600000 86400000 earlier + 300000)
            × IsWithin none (sent_within 103600000 604800000 earlier + 300000)
            × IsWithin none (sent_within 103600000 2592000000 earlier + 300000)))
enforce_transaction_limits_iff_example =
    enforce_transaction_limits_iff true (some 500000) (some 600000) none none earlier 103600000
      300000

over_the_day :
    enforce_transaction_limits
      (record {
        is_enabled = true;
        per_transaction = some 500000;
        daily = some 600000;
        weekly = none;
        monthly = none;
      })
      earlier
      103600000
      300000
    ≡ err daily_limit_exceeded
unfolding enforce_transaction_limits
over_the_day = refl
