-- ===== src/Tests.antt =====
-- Concrete stores, runs on them, and the properties at concrete inputs.
pub mod Samples
pub mod Rides
pub mod Money
pub mod Accounts
pub mod Office
pub mod Web
