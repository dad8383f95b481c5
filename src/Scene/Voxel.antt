-- ===== src/Scene/Voxel.antt =====
-- The voxel grid: hpr/scene/voxel_data.hpp and the coordinate functions of
-- hpr/scene/voxel_field.hpp.
pub mod Field
use hyprie.Base.{ℕ, ◌+◌, ◌*◌, Option, some, ◌>>=◌, ℤ, to_u32}
use hyprie.Scene.FloorDiv.{floor_div}
use hyprie.Scene.Grids.{chunk_size, local_coord, fnv1a_step, fnv1a_basis}

pub record VoxelCoord : Type 0 where
  pub x : ℤ
  pub y : ℤ
  pub z : ℤ

pub record VoxelChunkCoord : Type 0 where
  pub chunk_x : ℤ
  pub chunk_y : ℤ
  pub chunk_z : ℤ

-- `VoxelField::floor_div`, which repeats `math::floor_div`.
abbrev pub floor_div_voxel : ℤ → ℕ → Option ℤ
floor_div_voxel = floor_div

unfoldable pub chunk_of : VoxelCoord → Option VoxelChunkCoord
chunk_of c = do
  chunk_x ← floor_div_voxel c.x chunk_size
  chunk_y ← floor_div_voxel c.y chunk_size
  chunk_z ← floor_div_voxel c.z chunk_size
  some (record { chunk_x = chunk_x; chunk_y = chunk_y; chunk_z = chunk_z })

unfoldable pub key_of : VoxelChunkCoord → ℕ
key_of c =
    fnv1a_step (fnv1a_step (fnv1a_step fnv1a_basis (to_u32 c.chunk_x)) (to_u32 c.chunk_y))
      (to_u32 c.chunk_z)

unfoldable pub local_index : VoxelCoord → VoxelChunkCoord → Option ℕ
local_index c home = do
  x ← local_coord c.x home.chunk_x
  y ← local_coord c.y home.chunk_y
  z ← local_coord c.z home.chunk_z
  some (x + z * chunk_size + y * (chunk_size * chunk_size))

abbrev pub voxels_per_chunk : ℕ
voxels_per_chunk = 32768
