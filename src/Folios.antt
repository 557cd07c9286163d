-- ===== src/Folios.antt =====
-- Folios and their ledger: `FoliosService` of apps/api/src/modules/folios.module.ts. The bodies are
-- what the zod schemas of that file let through.
mod Entries
mod Operations
mod Transfer
pub mod Balance
pub mod Charges
pub mod Reversal
pub mod Moves
pub mod Scope
pub mod Frame
mod Tests
unfoldable pub use Entries.*
unfoldable pub use Operations.*
unfoldable pub use Transfer.*
