-- ===== src/Pos.antt =====
-- The orders of the outlets: `PosService` of apps/api/src/modules/pos.module.ts. Each operation has
-- a file below: Orders has createOrder, Settlement has settle, and Voiding has void.
pub mod Orders
pub mod Settlement
pub mod Voiding
pub mod Priced
pub mod Collected
pub mod Settled
pub mod Totals
pub mod Voids
pub mod Life
mod Tests
