-- ===== src/Marketing/Policy.antt =====
-- The pure functions of apps/api/src/flupflap/marketing-policy.ts. The rules have passed the zod schema
-- `campaignRules`; amounts are whole cents, identifiers and codes are numbers.
use ticash.Prelude.{
  ℕ, ◌+◌, ◌-◌, ◌*◌, ◌/◌, ◌%◌, min, Bool, true, false, not, ◌&&◌, ◌||◌, List, [], ◌∷◌, ◌==◌, ltb,
  leb, if◌then◌else◌, Result, ok, ◌>>◌, throw_if,
}
use ticash.Prelude.Doubles.{double, floor_quotient}
use ticash.Prelude.Lists.{includes, any}

pub data Benefit : Type 0 where
  no_benefit : Benefit
  fee_credit fixed_discount reduced_fee : (cents : ℕ) → Benefit
  percent_fee : (basis_points : ℕ) → Benefit
  waived_fee : Benefit

pub data Reward : Type 0 where
  no_reward : Reward
  fixed_customer fixed_recharge : (cents : ℕ) → Reward
  reward_percent : (basis_points : ℕ) → Reward
  milestone : (cents every : ℕ) → Reward

pub data CustomerType : Type 0 where
  registered guest : CustomerType

abbrev pub same_customer_type : CustomerType → CustomerType → Bool
same_customer_type registered registered = true
same_customer_type guest guest = true
same_customer_type _ _ = false

pub record CampaignRules : Type 0 where
  pub countries : List ℕ
  pub operators : List ℕ
  pub products : List ℕ
  pub customer_types : List CustomerType
  pub new_customer_only : Bool
  pub first_recharge_only : Bool
  pub max_redemptions : ℕ
  pub max_per_customer : ℕ

pub record Context : Type 0 where
  pub country_code : ℕ
  pub operator_id : ℕ
  pub product_id : ℕ
  pub is_guest : Bool
  pub created_at : ℕ
  pub campaign_starts_at : ℕ
  pub successful_recharges : ℕ
  pub redemptions : ℕ
  pub customer_redemptions : ℕ

-- `!list.length || list.includes(x)`
abbrev pub is_open_to : List ℕ → ℕ → Bool
is_open_to [] x = true
is_open_to (y ∷ ys) x = includes (y ∷ ys) x

unfoldable pub promotion_eligible : CampaignRules → Context → Bool
promotion_eligible rules context =
    any (same_customer_type (if context.is_guest then guest else registered)) rules.customer_types
    && (not rules.new_customer_only || leb context.campaign_starts_at context.created_at)
    && (not rules.first_recharge_only || context.successful_recharges == 0)
    && is_open_to rules.countries context.country_code
    && is_open_to rules.operators context.operator_id
    && is_open_to rules.products context.product_id
    && ltb context.redemptions rules.max_redemptions
    && ltb context.customer_redemptions rules.max_per_customer

-- `new MarketingError()`, PROMOTION_UNAVAILABLE
pub data MarketingError : Type 0 where
  promotion_unavailable : MarketingError

pub record PromotionPrice : Type 0 where
  pub principal_cents : ℕ
  pub original_fee_cents : ℕ
  pub benefit_cents : ℕ
  pub fee_cents : ℕ
  pub total_cents : ℕ

-- `Math.max(0, feeCents - rule.cents)` is the subtraction that stops at 0.
abbrev pub discount_of : ℕ → Benefit → ℕ
discount_of fee no_benefit = 0
discount_of fee waived_fee = fee
discount_of fee (percent_fee bps) = fee * bps / 10000
discount_of fee (reduced_fee cents) = fee - cents
discount_of fee (fee_credit cents) = cents
discount_of fee (fixed_discount cents) = cents

unfoldable pub promotion_price : ℕ → ℕ → Benefit → Result MarketingError PromotionPrice
promotion_price principal fee rule = do
  throw_if (ltb 10000 principal || ltb 10000 fee) promotion_unavailable
  let benefit = min fee (discount_of fee rule)
  ok (record {
    principal_cents = principal;
    original_fee_cents = fee;
    benefit_cents = benefit;
    fee_cents = fee - benefit;
    total_cents = principal + fee - benefit;
  })

abbrev pub reward_of : ℕ → ℕ → Reward → ℕ
reward_of fee count no_reward = 0
reward_of fee count (reward_percent bps) = floor_quotient (double (fee * bps)) 10000
reward_of fee count (milestone cents every) = if count % every == 0 then cents else 0
reward_of fee count (fixed_customer cents) = cents
reward_of fee count (fixed_recharge cents) = cents

-- `Number.MAX_SAFE_INTEGER`
abbrev pub max_safe_integer : ℕ
max_safe_integer = 9007199254740991

unfoldable pub promoter_reward_cents : ℕ → Reward → ℕ → Result MarketingError ℕ
promoter_reward_cents fee rule count = do
  throw_if (ltb max_safe_integer fee || ltb max_safe_integer count || ltb count 1)
      promotion_unavailable
  ok (reward_of fee count rule)

pub data RewardStatus : Type 0 where
  reward_pending approved payable paid reversed : RewardStatus

-- The table `transitions`.
abbrev pub may_follow : RewardStatus → RewardStatus → Bool
may_follow reward_pending approved = true
may_follow reward_pending reversed = true
may_follow approved payable = true
may_follow approved reversed = true
may_follow payable paid = true
may_follow payable reversed = true
may_follow paid reversed = true
may_follow _ _ = false

-- The reason is told by its trimmed length.
unfoldable pub reward_transition :
    RewardStatus → RewardStatus → ℕ → Result MarketingError (Unit {0})
reward_transition from to reason_length = do
  throw_if (ltb reason_length 5) promotion_unavailable
  throw_if (not (may_follow from to)) promotion_unavailable
  ok tt
