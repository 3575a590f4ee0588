-- ===== src/Security.antt =====
-- apps/api/src/security.ts: sign-in attempts and transfer limits.
pub mod Logins
pub mod Lockouts
pub mod Transfers
pub mod Limits
pub mod Tests
