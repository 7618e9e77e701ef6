-- ===== src/Harness.antt =====
-- The test harnesses that the suite's programs are written against.
pub mod Z88dk
