-- ===== src/Repositories.antt =====
-- repositories/*.js: the queries and writes of the services.
mod Rides
mod Drivers
mod Fleet
mod Wallets
mod Payments
mod Tokens
mod Users
mod Ratings
mod Vehicles
mod Places
pub mod Reports
unfoldable pub use Rides.*
unfoldable pub use Drivers.*
unfoldable pub use Fleet.*
unfoldable pub use Wallets.*
unfoldable pub use Payments.*
unfoldable pub use Tokens.*
unfoldable pub use Users.*
unfoldable pub use Ratings.*
unfoldable pub use Vehicles.*
unfoldable pub use Places.*
