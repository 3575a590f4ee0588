-- ===== src/Funding.antt =====
-- apps/api/src/funding: bank funding through Dwolla.
pub mod Tests
pub mod Types
pub mod Repository
pub mod Provider
pub mod Sources
pub mod Verification
pub mod Requests
pub mod Notices
pub mod Sending
pub mod Frames
pub mod SourceCalls
pub mod SingleSends
pub mod Initiations
pub mod Sessions
pub mod Deliveries
pub mod ServiceTests
pub mod Settlement
pub mod Webhooks
pub mod Conservation
pub mod Holds
pub mod OtherCalls
pub mod HeldAmounts
pub mod Reports
pub mod Wallets
pub mod Laws
pub mod Limits
pub mod Events
