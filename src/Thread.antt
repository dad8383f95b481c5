-- ===== src/Thread.antt =====
-- The job system, hpr/thread.
pub mod MpmcRing
pub mod JobLatch
