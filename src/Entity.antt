-- ===== src/Entity.antt =====
-- The entity component system, hpr/entity.
pub mod Rack
pub mod Registry
