-- ===== src/Marketing/Prices.antt =====
-- What the prices, rewards and transitions of apps/api/src/flupflap/marketing-policy.ts promise.
use ticash.Prelude.{ℕ, ◌⊎◌, ◌+◌, ◌-◌, ◌*◌, ◌≤◌, ◌<◌, ◌≡◌, ◌↔◌, min, arith, ok}
use native.Mathlib.Nat.{mul-le-mul_left}
use ticash.Prelude.Doubles.{double-small, floor_quotient-small}
use ticash.Marketing.Policy.{
  max_safe_integer, Benefit, no_benefit, fee_credit, fixed_discount, reduced_fee, percent_fee,
  waived_fee, PromotionPrice, promotion_price, reward_percent, promoter_reward_cents,
}

-- What a benefit leaves of the fee: all of it, nothing, at most the reduced fee, or all but the credit or
-- the share, which is rounded down.
abbrev pub IsReduced : Benefit → ℕ → ℕ → Type 0
IsReduced no_benefit fee left = left ≡ fee
IsReduced waived_fee fee left = left ≡ 0
IsReduced (reduced_fee cents) fee left = left ≡ min fee cents
IsReduced (fee_credit cents) fee left = ((fee ≤ cents) × (left ≡ 0)) ⊎ (left + cents ≡ fee)
IsReduced (fixed_discount cents) fee left = ((fee ≤ cents) × (left ≡ 0)) ⊎ (left + cents ≡ fee)
IsReduced (percent_fee bps) fee left =
    (fee * bps < 10000 * (fee - left) + 10000) × (10000 * (fee - left) ≤ fee * bps)

-- The schema's bound on a share.
abbrev pub IsRate : Benefit → Type 0
IsRate (percent_fee bps) = bps ≤ 10000
IsRate _ = Unit

-- A recharge of at most $100 with a fee of at most $100 is promoted at `p` exactly when `p` keeps the
-- principal, splits the fee into the benefit and what the benefit's rule leaves of it, and adds up.
pub promotion_price_iff :
    (principal fee : ℕ) (rule : Benefit) (p : PromotionPrice)
    → IsRate rule
    → (promotion_price principal fee rule ≡ ok p) ↔ (
        (principal ≤ 10000)
        × (fee ≤ 10000)
        × (p.principal_cents ≡ principal)
        × (p.original_fee_cents ≡ fee)
        × (p.fee_cents + p.benefit_cents ≡ fee)
        × (p.total_cents ≡ principal + p.fee_cents)
        × IsReduced rule fee p.fee_cents)
unfolding promotion_price
promotion_price_iff principal fee no_benefit p b = (λ h. ground arith, λ h. ground arith)
promotion_price_iff principal fee (fee_credit cents) p b = (λ h. ground arith, λ h. ground arith)
promotion_price_iff principal fee (fixed_discount cents) p b =
    (λ h. ground arith, λ h. ground arith)
promotion_price_iff principal fee (reduced_fee cents) p b = (λ h. ground arith, λ h. ground arith)
promotion_price_iff principal fee waived_fee p b = (λ h. ground arith, λ h. ground arith)
promotion_price_iff principal fee (percent_fee bps) p b =
    let share = mul-le-mul_left {m = bps} {n = 10000} fee b in
    (λ h. ground arith, λ h. ground arith)

-- A share of at most the whole fee never pays a promoter more than the fee, where the fee times the share
-- is small enough for a double.
pub promoter_reward_cents-le :
    (fee bps count : ℕ) {cents : ℕ}
    → bps ≤ 10000
    → fee * bps ≤ max_safe_integer
    → promoter_reward_cents fee (reward_percent bps) count ≡ ok cents
    → cents ≤ fee
unfolding promoter_reward_cents
promoter_reward_cents-le fee bps count {cents} b s h =
    let share = mul-le-mul_left {m = bps} {n = 10000} fee b in
    let k = rw (double-small (fee * bps) s, floor_quotient-small (fee * bps) 10000 s) at h in
    ground (arith, k, share)
