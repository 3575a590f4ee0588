-- ===== src/Topup/Repository.antt =====
-- `MemoryMobileTopUpRepository` of apps/api/src/topup/repository.ts: quotes, transactions and claims.
pub mod Types
pub mod Claims
pub mod Updates
pub mod PaymentEvents
pub mod Quotes
pub mod Exclusion
pub mod Submissions
pub mod Tests
