-- ===== src/Pos/Life.antt =====
-- The life of an order over time, under the operations of PosService and the decisions of Approvals.
pub mod Effects
pub mod Decision
pub mod Steps
