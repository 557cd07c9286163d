-- ===== src/Store.antt =====
-- The database as the services see it through Prisma: enumerations and rows of
-- packages/database/prisma/schema.prisma, the tables, and a request's monad.
mod Values
mod Rows
mod Monad
pub mod Sample
pub use Values.*
pub use Rows.*
pub use Monad.*
