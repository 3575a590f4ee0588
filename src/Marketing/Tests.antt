-- ===== src/Marketing/Tests.antt =====
-- Promotions and rewards of the tests (apps/api/src/flupflap/marketing-policy.ts).
use ticash.Prelude.{ℕ, ◌+◌, ◌≤◌, ◌≡◌, ◌↔◌, refl, arith, true, false, List, [], ◌∷◌, ok}
use ticash.Prelude.Doubles.{double, floor_quotient}
use ticash.Marketing.Policy.{
  reward_percent, fee_credit, PromotionPrice, promotion_price, promoter_reward_cents, CampaignRules,
  Context, registered, promotion_eligible, RewardStatus, approved, payable, paid, reward_transition,
}
use ticash.Marketing.Prices.{IsReduced, promotion_price_iff, promoter_reward_cents-le}
use ticash.Marketing.Rewards.{statuses, paid_path}

abbrev price : PromotionPrice
price = record {
  principal_cents = 1000;
  original_fee_cents = 170;
  benefit_cents = 100;
  fee_cents = 70;
  total_cents = 1070;
}

promotion_price_iff_example : (promotion_price 1000 170 (fee_credit 100) ≡ ok price) ↔ (
    (1000 ≤ 10000)
    × (170 ≤ 10000)
    × (price.principal_cents ≡ 1000)
    × (price.original_fee_cents ≡ 170)
    × (price.fee_cents + price.benefit_cents ≡ 170)
    × (price.total_cents ≡ 1000 + price.fee_cents)
    × IsReduced (fee_credit 100) 170 price.fee_cents)
promotion_price_iff_example = promotion_price_iff 1000 170 (fee_credit 100) price tt

price_charged : promotion_price 1000 170 (fee_credit 100) ≡ ok price
unfolding promotion_price
price_charged = refl

promoter_reward_cents-le_example : 25 ≤ 170
unfolding promoter_reward_cents double floor_quotient
promoter_reward_cents-le_example =
    promoter_reward_cents-le 170 1500 1 (ground arith) (ground arith) refl

-- The product of this fee is rounded.
rounded_share :
    promoter_reward_cents 9007199254740988 (reward_percent 10000) 1 ≡ ok 9007199254740989
unfolding promoter_reward_cents double floor_quotient
rounded_share = refl

abbrev accepted : List (RewardStatus × ℕ)
accepted = (approved, 9) ∷ (payable, 12) ∷ (paid, 20) ∷ []

paid_path_example : statuses accepted ≡ approved ∷ payable ∷ paid ∷ []
unfolding reward_transition
paid_path_example = paid_path accepted refl

abbrev rules : CampaignRules
rules = record {
  countries = 509 ∷ [];
  operators = [];
  products = [];
  customer_types = registered ∷ [];
  new_customer_only = true;
  first_recharge_only = true;
  max_redemptions = 100;
  max_per_customer = 1;
}

abbrev first_recharge : Context
first_recharge = record {
  country_code = 509;
  operator_id = 4;
  product_id = 6;
  is_guest = false;
  created_at = 2000;
  campaign_starts_at = 1000;
  successful_recharges = 0;
  redemptions = 99;
  customer_redemptions = 0;
}

first_recharge_eligible : promotion_eligible rules first_recharge ≡ true
unfolding promotion_eligible
first_recharge_eligible = refl

guest_refused : promotion_eligible rules (record first_recharge { is_guest = true }) ≡ false
unfolding promotion_eligible
guest_refused = refl
