-- ===== src/Kyc.antt =====
-- apps/api/src/kyc: the identity verification with Didit.
pub mod Types
pub mod Profiles
pub mod Service
pub mod Reports
pub mod Exclusion
pub mod Ownership
pub mod Calls
pub mod Tests
