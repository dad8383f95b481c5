-- ===== src/Input.antt =====
-- The input, hpr/input.
pub mod Action
