-- ===== src/Topup/Service.antt =====
-- apps/api/src/topup/service.ts: how a paid recharge is carried out, and how its payment is given back.
pub mod Environment
pub mod Recovery
pub mod Results
pub mod SecurityRefunds
pub mod Fulfillment
pub mod Frames
pub mod Endings
pub mod Orders
pub mod Releases
pub mod Sessions
pub mod Loops
pub mod Tests
