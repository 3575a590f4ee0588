-- ===== src/Stores.antt =====
-- apps/api/src/flupflap/stores.ts: the stores that sell recharges from a prepaid balance.
pub mod Types
pub mod Policy
pub mod Ledger
pub mod Deposits
pub mod Applications
pub mod Openings
pub mod Orders
pub mod Books
pub mod Transactions
pub mod Authorizations
pub mod Reviews
pub mod Returns
pub mod Sellers
pub mod Tests
pub mod History
pub mod Once
pub mod Payouts
pub mod Postings
pub mod Settlements
