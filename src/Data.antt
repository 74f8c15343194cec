-- ===== src/Data.antt =====
-- The data that the services share: the statuses and rows of prisma/schema.prisma, and the
-- database with its transactions.
pub mod Status
pub mod Rows
pub mod Money
pub mod Session
pub use Status.*
pub use Rows.*
unfoldable pub use Session.*
