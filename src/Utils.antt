-- ===== src/Utils.antt =====
-- utils/*.js and config/pricing.js: fares and conversions of money.
pub mod Fare
pub mod Money
