-- ===== src/Reservations.antt =====
-- Reservations: `ReservationsService` of apps/api/src/modules/reservations.module.ts. The bodies are
-- what the zod schemas of that file let through. `rooms[0]` and `folios[0]` of a reservation are the
-- rows that were created first.
mod Rooms
mod Creation
mod Arrival
mod Departure
mod Moves
mod Changes
pub mod Nights
pub mod Effects
pub mod CheckIn
pub mod InHouse
pub mod Extension
pub mod Rebooked
pub mod Endings
pub mod Created
pub mod Leaving
pub mod Settling
pub mod Billed
pub mod Outcomes
pub mod House
pub mod Steps
mod Tests
unfoldable pub use Rooms.*
unfoldable pub use Creation.*
unfoldable pub use Arrival.*
unfoldable pub use Departure.*
unfoldable pub use Moves.*
unfoldable pub use Changes.*
