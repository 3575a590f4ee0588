-- ===== src/Topup/FeeGrid.antt =====
-- apps/api/src/topup/recharge-fee-grid.ts: the fee tiers and the prices of a recharge.
-- A dollar amount is its value in units of 10^-8 dollars (10^-6 cents), so that it has at most eight
-- decimals. On these the source's comparison with 10^-7 cents only absorbs the rounding of floating point:
-- an amount up to $100 is off by less than 10^-10 cents after its rounding, and above it is refused.
use mathlib.Core.List.{reverse}
pub mod Laws
use ticash.Prelude.{
  ℕ, ◌+◌, ◌*◌, ◌/◌, Bool, ◌||◌, List, [], ◌∷◌, ltb, leb, ◌==◌, ok, err, ◌>>=◌, ◌>>◌, throw_if,
  or_throw,
}
use ticash.Prelude.Lists.{find, any}
use ticash.Prelude.Int.{ℤ, pos, negsuc, sub_ℕ, pos_part, neg_part, ltb_ℤ}
use ticash.Topup.Errors.{Outcome, fail_with, invalid_topup_amount, type_error}

-- A JavaScript number of dollars: finite, or an infinity or NaN.
pub data Dollars : Type 0 where
  finite : ℤ → Dollars
  not_finite : Dollars

-- The units in one cent.
abbrev pub units_per_cent : ℕ
units_per_cent = 1000000

abbrev pub approved_fee_grid : List (ℕ × ℕ)
approved_fee_grid =
    (500, 99)
    ∷ (1000, 125)
    ∷ (2000, 149)
    ∷ (3000, 199)
    ∷ (5000, 249)
    ∷ (7500, 349)
    ∷ (10000, 449)
    ∷ []

pub is_approved_recharge_amount_minor_units : ℕ → Bool
is_approved_recharge_amount_minor_units cents = any (λ t. t.0 == cents) approved_fee_grid

-- `Math.round(amountUsd * 100)`: a half goes up.
unfoldable pub round_cents : ℤ → ℤ
round_cents (pos n) = pos ((n + 500000) / 1000000)
round_cents (negsuc n) = sub_ℕ 0 ((n + 500000) / 1000000)

-- `Math.abs(amountUsd * 100 - cents) > 1e-7`, a difference of at least one unit
abbrev pub is_off_cent : ℤ → ℤ → Bool
is_off_cent x c =
    ltb (pos_part x + neg_part c * units_per_cent) (pos_part c * units_per_cent + neg_part x)
    || ltb (pos_part c * units_per_cent + neg_part x) (pos_part x + neg_part c * units_per_cent)

unfoldable pub normalize_recharge_amount_minor_units : Dollars → ℕ → Outcome ℕ
unfolding round_cents
normalize_recharge_amount_minor_units not_finite minimum_cents =
    err (fail_with invalid_topup_amount 400)
normalize_recharge_amount_minor_units (finite x) minimum_cents = do
  let cents = round_cents x
  throw_if (is_off_cent x cents || ltb_ℤ cents (pos minimum_cents) || ltb_ℤ (pos 10000) cents)
      (fail_with invalid_topup_amount 400)
  ok (pos_part cents)

-- `Number.MAX_SAFE_INTEGER`
abbrev max_safe_integer : ℕ
max_safe_integer = 9007199254740991

unfoldable pub lookup_recharge_fee_minor_units : ℕ → Outcome ℕ
lookup_recharge_fee_minor_units cents = do
  throw_if (ltb max_safe_integer cents || ltb cents 500 || ltb 10000 cents)
      (fail_with invalid_topup_amount 400)
  tier ← or_throw (find (λ t. leb t.0 cents) (reverse approved_fee_grid)) (fail_with type_error 500)
  ok tier.1

pub record Price : Type 0 where
  pub amount_minor_units : ℕ
  pub fee_minor_units : ℕ
  pub total_minor_units : ℕ

unfoldable pub approved_recharge_price : Dollars → Outcome Price
approved_recharge_price amount_usd = do
  amount ← normalize_recharge_amount_minor_units amount_usd 500
  fee ← lookup_recharge_fee_minor_units amount
  ok (record {
    amount_minor_units = amount;
    fee_minor_units = fee;
    total_minor_units = amount + fee;
  })

abbrev pub flup_flap_recharge_fee_percent : ℕ
flup_flap_recharge_fee_percent = 17

-- `flupFlapRechargePrice`; `flupFlapAirtimePrice` is the same function.
unfoldable pub flup_flap_recharge_price : Dollars → Outcome Price
flup_flap_recharge_price amount_usd = do
  amount ← normalize_recharge_amount_minor_units amount_usd 500
  let fee = (amount * flup_flap_recharge_fee_percent + 50) / 100
  ok (record {
    amount_minor_units = amount;
    fee_minor_units = fee;
    total_minor_units = amount + fee;
  })
