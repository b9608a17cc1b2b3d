-- ===== src/Jobs.antt =====
-- The job runners of jobs/runners.py.
pub mod Chain
pub mod Enqueue
