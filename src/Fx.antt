-- ===== src/Fx.antt =====
-- apps/api/src/fx: exchange quotes.
pub mod Quotes
pub mod Once
pub mod Tests
