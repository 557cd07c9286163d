-- ===== src/Booking.antt =====
-- The direct booking of stays: `BookingService` of apps/api/src/modules/booking.module.ts. Quotes has
-- the prices and Holds the holds; the redemption of a hold, `consumeHoldTx`, stands with `create` in
-- Reservations/Creation. `Number` of an amount is the amount, as it is below 2^53.
pub mod Quotes
pub mod Holds
pub mod Priced
pub mod Sweep
pub mod Held
pub mod Redeemed
mod Tests
