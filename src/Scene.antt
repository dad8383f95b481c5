-- ===== src/Scene.antt =====
-- The scene directory, hpr/scene, and the integer helpers of hpr/core that it uses.
pub mod CameraController
pub mod FloorDiv
pub mod Grids
pub mod Tile
pub mod Voxel
pub mod Field
