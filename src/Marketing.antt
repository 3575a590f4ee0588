-- ===== src/Marketing.antt =====
-- apps/api/src/flupflap/marketing-policy.ts: campaigns, promoted prices and promoters' rewards.
pub mod Policy
pub mod Prices
pub mod Rewards
pub mod Tests
