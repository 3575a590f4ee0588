-- ===== src/Topup.antt =====
-- apps/api/src/topup: the mobile recharge service.
pub mod Tests
pub mod Scenarios
pub mod Errors
pub mod FeeGrid
pub mod Repository
pub mod Service
pub mod Notifications
pub mod Messages
pub mod MessageTests
pub mod Identity
pub mod RoundTrips
pub mod Evidence
pub mod Reviews
pub mod PurchaseLimits
pub mod Retries
