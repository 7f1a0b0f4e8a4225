-- ===== src/Model.antt =====
-- The rows of the database (prisma/schema.prisma) that the services read and write. Ids stand for
-- the cuid strings, which the code only compares, and a row's own id is its key in its table.
-- Times are milliseconds, money in a column is whole cents.
mod Rides
mod Accounts
mod Money
mod Notices
mod Fleet
pub use Rides.*
pub use Accounts.*
pub use Money.*
pub use Notices.*
pub use Fleet.*
