-- ===== src/Layer.antt =====
-- The layers, hpr/layer.
pub mod Stack
