-- ===== src/Event.antt =====
-- The event directory, hpr/event.
pub mod CommandStream
pub mod EventQueue
