-- ===== src/Store.antt =====
-- What the services share: the database behind Prisma, Redis, the sockets' outgoing events, the
-- outcome counters, and the clock. An operation is an action on this store.
mod State
mod Monad
pub use State.*
pub use Monad.*
