-- ===== src/NightAudit.antt =====
-- The close of the day: `NightAuditService` of apps/api/src/modules/night-audit.module.ts. Preflight
-- has its checks before the close, and Run the close itself; the texts of the blockers and warnings
-- are left out.
pub mod Preflight
pub mod Run
pub mod Posting
pub mod Closing
pub mod Outcome
pub mod Days
pub mod Nights
mod Tests
