-- ===== src/Topup/FeeGrid/Laws.antt =====
-- What the prices of recharge-fee-grid.ts promise.

use ticash.Prelude.{
  if◌then◌else◌, leb, ◌⊎◌, ℕ, ◌+◌, ◌*◌, ◌≤◌, ◌<◌, ◌≡◌, ◌↔◌, arith, ok, err, Result-cases, inl, inr,
}
use ticash.Prelude.Int.{pos, negsuc}
use ticash.Prelude.Lists.{All, In}
use ticash.Topup.Errors.{MobileTopUpError, fail_with, invalid_topup_amount}
use ticash.Topup.FeeGrid.{
  Dollars, finite, not_finite, units_per_cent, approved_fee_grid,
  normalize_recharge_amount_minor_units, lookup_recharge_fee_minor_units, Price,
  flup_flap_recharge_price,
}

-- The amount is that many whole cents.
abbrev pub IsCents : Dollars → ℕ → Type 0
IsCents d c = d ≡ finite (pos (c * units_per_cent))

normalize_accepts :
    (c m : ℕ)
    → 1 ≤ m
    → m ≤ c
    → c ≤ 10000
    → normalize_recharge_amount_minor_units (finite (pos (c * units_per_cent))) m ≡ ok c
unfolding normalize_recharge_amount_minor_units
normalize_accepts c m p lo hi = ground arith

normalize_sound :
    (d : Dollars) (m : ℕ) {c : ℕ}
    → 1 ≤ m
    → normalize_recharge_amount_minor_units d m ≡ ok c
    → IsCents d c × (m ≤ c) × (c ≤ 10000)
unfolding normalize_recharge_amount_minor_units
normalize_sound not_finite m p h = ground arith
normalize_sound (finite (pos x)) m p h = (ground arith, ground arith, ground arith)
normalize_sound (finite (negsuc x)) m p h = ground arith

-- For a minimum of at least one cent, an amount with at most eight decimals of a dollar is normalized to
-- `c` cents exactly when it is `c` whole cents and `c` lies between the minimum and 10000.
pub normalize_iff :
    (d : Dollars) (m c : ℕ)
    → 1 ≤ m
    → (normalize_recharge_amount_minor_units d m ≡ ok c) ↔ (IsCents d c × (m ≤ c) × (c ≤ 10000))
normalize_iff d m c p =
    (normalize_sound d m p, λ (at, lo, hi). rw at (normalize_accepts c m p lo hi))

-- Every refusal is the same error.
pub normalize_refuses :
    (d : Dollars) (m : ℕ) {e : MobileTopUpError}
    → normalize_recharge_amount_minor_units d m ≡ err e
    → e ≡ fail_with invalid_topup_amount 400
unfolding normalize_recharge_amount_minor_units
normalize_refuses not_finite m h = ground arith
normalize_refuses (finite (pos x)) m h = ground arith
normalize_refuses (finite (negsuc x)) m h = ground arith

-- The tier of an amount: the highest of the grid that does not exceed it.
abbrev pub IsTier : ℕ → ℕ × ℕ → Type 0
IsTier cents t =
    In t approved_fee_grid × (t.0 ≤ cents) × All (λ u. u.0 ≤ cents → u.0 ≤ t.0) approved_fee_grid

-- The tier that the search in the reversed grid finds.
tier_of : ℕ → ℕ × ℕ
tier_of c =
    if leb 10000 c
    then (10000, 449)
    else if leb 7500 c
    then (7500, 349)
    else if leb 5000 c
    then (5000, 249)
    else if leb 3000 c
    then (3000, 199)
    else if leb 2000 c
    then (2000, 149)
    else if leb 1000 c
    then (1000, 125)
    else (500, 99)

tier_of-IsTier : (c : ℕ) → 500 ≤ c → IsTier c (tier_of c)
unfolding tier_of
tier_of-IsTier c h = (ground arith, ground arith, ground arith)

lookup-tier_of :
    (c : ℕ) → 500 ≤ c → c ≤ 10000 → lookup_recharge_fee_minor_units c ≡ ok (tier_of c).1
unfolding tier_of lookup_recharge_fee_minor_units
lookup-tier_of c lo hi = ground arith

tier_unique : (c : ℕ) (t : ℕ × ℕ) → 500 ≤ c → IsTier c t → t.1 ≡ (tier_of c).1
unfolding tier_of
tier_unique c t lo h = ground arith

-- The fee of `c` cents is `f` exactly when `c` lies between 500 and 10000 and `f` is the fee of the
-- highest tier of the grid that does not exceed `c`.
pub lookup_iff :
    (c f : ℕ)
    → (lookup_recharge_fee_minor_units c ≡ ok f)
      ↔ ((500 ≤ c) × (c ≤ 10000) × ((t : ℕ × ℕ) × IsTier c t × (t.1 ≡ f)))
lookup_iff c f = (λ h. sound h, λ (lo, hi, t). complete lo hi t)
  where
    inside : lookup_recharge_fee_minor_units c ≡ ok f → (500 ≤ c) × (c ≤ 10000)
    inside h = unfold lookup_recharge_fee_minor_units in (ground arith, ground arith)

    sound :
        lookup_recharge_fee_minor_units c ≡ ok f
        → (500 ≤ c) × (c ≤ 10000) × ((t : ℕ × ℕ) × IsTier c t × (t.1 ≡ f))
    sound h =
        let (lo, hi) = inside h in
        (lo, hi, (tier_of c, tier_of-IsTier c lo, cc (lookup-tier_of c lo hi)))

    complete :
        500 ≤ c
        → c ≤ 10000
        → ((t : ℕ × ℕ) × IsTier c t × (t.1 ≡ f))
        → lookup_recharge_fee_minor_units c ≡ ok f
    complete lo hi t = cc (lookup-tier_of c lo hi, tier_unique c t.0 lo t.1)

-- Outside 500 to 10000 cents the fee lookup throws INVALID_TOPUP_AMOUNT; inside it never throws, so
-- the `!` of the source holds.
lookup_refuses :
    (c : ℕ) (e : MobileTopUpError)
    → (lookup_recharge_fee_minor_units c ≡ err e)
      ↔ (((c < 500) ⊎ (10000 < c)) × (e ≡ fail_with invalid_topup_amount 400))
unfolding lookup_recharge_fee_minor_units
lookup_refuses c e = (λ h. ground arith, λ h. ground arith)

-- A larger amount never has a smaller tier fee.
lookup_mono :
    (c d f g : ℕ)
    → c ≤ d
    → lookup_recharge_fee_minor_units c ≡ ok f
    → lookup_recharge_fee_minor_units d ≡ ok g
    → f ≤ g
unfolding lookup_recharge_fee_minor_units
lookup_mono c d f g h p q = ground arith

-- The price that a 17 percent fee gives: the nearest cent, a half upward.
abbrev pub IsPrice : Dollars → Price → Type 0
IsPrice d p =
    IsCents d p.amount_minor_units
    × (500 ≤ p.amount_minor_units)
    × (p.amount_minor_units ≤ 10000)
    × (100 * p.fee_minor_units ≤ 17 * p.amount_minor_units + 50)
    × (17 * p.amount_minor_units + 50 < 100 * p.fee_minor_units + 100)
    × (p.total_minor_units ≡ p.amount_minor_units + p.fee_minor_units)

price_sound : (d : Dollars) (p : Price) → flup_flap_recharge_price d ≡ ok p → IsPrice d p
unfolding flup_flap_recharge_price
price_sound d p h = elim (Result-cases (normalize_recharge_amount_minor_units d 500)) [
  | inl (c, e) ↦
      let (at, lo, hi) = (normalize_iff d 500 c (omega arith)).0 e in
      let a : p.amount_minor_units ≡ c = ground arith in
      (rw a at, rw a lo, rw a hi, ground arith, ground arith, ground arith)
  | inr (x, e) ↦ ground arith
]

price_complete : (d : Dollars) (p : Price) → IsPrice d p → flup_flap_recharge_price d ≡ ok p
unfolding flup_flap_recharge_price
price_complete d p (at, lo, hi, f, g, t) =
    let e = (normalize_iff d 500 p.amount_minor_units (omega arith)).1 (at, lo, hi) in
    ground (arith, e)

-- A recharge of an amount with at most eight decimals is priced as `p` exactly when `p` charges the amount
-- entered, in whole cents between $5 and $100, plus 17 percent of it rounded to the nearest cent, a half
-- upward.
pub flup_flap_recharge_price_iff :
    (d : Dollars) (p : Price) → (flup_flap_recharge_price d ≡ ok p) ↔ IsPrice d p
flup_flap_recharge_price_iff d p = (price_sound d p, price_complete d p)
