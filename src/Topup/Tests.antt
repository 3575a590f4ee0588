-- ===== src/Topup/Tests.antt =====
-- Prices of the tests (apps/api/src/topup/recharge-fee-grid.ts).
use ticash.Prelude.{ℕ, ◌≡◌, ◌≤◌, ◌↔◌, refl, arith, ok, err}
use ticash.Topup.Errors.{fail_with, invalid_topup_amount}
use ticash.Prelude.Int.{pos}
use ticash.Topup.FeeGrid.{
  Dollars, finite, normalize_recharge_amount_minor_units, lookup_recharge_fee_minor_units, Price,
  flup_flap_recharge_price,
}
use ticash.Topup.FeeGrid.Laws.{
  IsCents, normalize_iff, IsTier, lookup_iff, IsPrice, flup_flap_recharge_price_iff,
}

-- $12.34
abbrev twelve_34 : Dollars
twelve_34 = finite (pos 1234000000)

abbrev price_of_12_34 : Price
price_of_12_34 = record {
  amount_minor_units = 1234;
  fee_minor_units = 210;
  total_minor_units = 1444;
}

flup_flap_recharge_price_iff_example :
    (flup_flap_recharge_price twelve_34 ≡ ok price_of_12_34) ↔ IsPrice twelve_34 price_of_12_34
flup_flap_recharge_price_iff_example = flup_flap_recharge_price_iff twelve_34 price_of_12_34

price_of_12_34_charged : flup_flap_recharge_price twelve_34 ≡ ok price_of_12_34
unfolding flup_flap_recharge_price normalize_recharge_amount_minor_units
price_of_12_34_charged = refl

normalize_iff_example :
    (normalize_recharge_amount_minor_units twelve_34 500 ≡ ok 1234)
    ↔ (IsCents twelve_34 1234 × (500 ≤ 1234) × (1234 ≤ 10000))
normalize_iff_example = normalize_iff twelve_34 500 1234 (ground arith)

lookup_iff_example :
    (lookup_recharge_fee_minor_units 1234 ≡ ok 125)
    ↔ ((500 ≤ 1234) × (1234 ≤ 10000) × ((t : ℕ × ℕ) × IsTier 1234 t × (t.1 ≡ 125)))
lookup_iff_example = lookup_iff 1234 125

-- $5.00000001
just_off :
    normalize_recharge_amount_minor_units (finite (pos 500000001)) 500
    ≡ err (fail_with invalid_topup_amount 400)
unfolding normalize_recharge_amount_minor_units
just_off = refl
