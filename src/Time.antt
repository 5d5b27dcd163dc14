-- ===== src/Time.antt =====
-- Weekly time (src/lib/time, src/lib/availability).
pub mod Windows
pub mod Grid
