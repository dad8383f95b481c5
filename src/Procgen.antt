-- ===== src/Procgen.antt =====
-- The procedural geometry, hpr/procgen.
pub mod RadixSort
pub mod MeshKeys
pub mod MortonCode
