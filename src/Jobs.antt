-- ===== src/Jobs.antt =====
-- The background workers (src/jobs), the milestone worker of Services/Milestones aside.
pub mod Sweeps
pub mod Refunds
pub mod Payouts
pub mod Frequent
mod Tests
