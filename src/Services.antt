-- ===== src/Services.antt =====
-- services/*.js: one module for each service.
pub mod Geo
pub mod Maps
pub mod Ride
pub mod Wallet
pub mod Notification
pub mod Coupon
pub mod Payment
pub mod Token
pub mod Driver
pub mod Auth
pub mod Rating
pub mod Vehicle
pub mod Verification
pub mod User
pub mod Admin
pub mod FavoriteDriver
pub mod SavedLocation
pub mod Report
pub mod Analytics
