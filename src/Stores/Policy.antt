-- ===== src/Stores/Policy.antt =====
-- `storeCommission` of apps/api/src/flupflap/store-policy.ts and `cents` of stores.ts.
use ticash.Prelude.{ℕ, ◌+◌, ◌*◌, ◌||◌, Result, ok, ltb, ◌>>◌, throw_if}
use ticash.Prelude.Doubles.{double, floor_quotient}
use ticash.Stores.Types.{Failure, fail, invalid_store_commission, invalid_store_amount}

-- `Number.MAX_SAFE_INTEGER`
abbrev pub max_safe_integer : ℕ
max_safe_integer = 9007199254740991

-- The fee and the rate are whole and not negative.
unfoldable pub store_commission : ℕ → ℕ → Result Failure ℕ
store_commission fee_cents commission_bps = do
  throw_if (ltb max_safe_integer fee_cents || ltb 5000 commission_bps)
      (fail invalid_store_commission 500)
  ok (floor_quotient (double (double (fee_cents * commission_bps) + 5000)) 10000)

-- The dollar columns are `Decimal(18, 2)`, so a value is a whole number of cents and the rounding of
-- the source changes nothing.
unfoldable pub cents : ℕ → Result Failure ℕ
cents value = do throw_if (ltb 1000000 value) (fail invalid_store_amount 409); ok value
