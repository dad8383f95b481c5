-- ===== src/Scene/Tile.antt =====
-- The tile grid: hpr/scene/tile_data.hpp, the coordinate functions of hpr/scene/tile_query.hpp and
-- `TileField::local_index` of hpr/scene/tile_field.hpp.
pub mod Field
pub mod Resize
pub mod Filled
pub mod Edit
use hyprie.Base.{ℕ, ◌+◌, ◌*◌, ◌≡◌, ◌<◌, Option, none, some, refl, arith, ◌>>=◌, ℤ, to_u32}
use hyprie.Scene.FloorDiv.{floor_div}
use hyprie.Scene.Grids.{chunk_size, local_coord, fnv1a_step, fnv1a_basis, floor_div-Split}
use hyprie.Scene.Field.{Grid}

pub record TileCoord : Type 0 where
  pub x : ℤ
  pub z : ℤ
  pub storey_index : ℤ
  pub storey_stack : ℤ

pub record TileChunkCoord : Type 0 where
  pub chunk_x : ℤ
  pub chunk_z : ℤ
  pub storey_index : ℤ
  pub storey_stack : ℤ

unfoldable pub get_chunk_coord : TileCoord → Option TileChunkCoord
get_chunk_coord c = do
  chunk_x ← floor_div c.x chunk_size
  chunk_z ← floor_div c.z chunk_size
  some (record {
    chunk_x = chunk_x;
    chunk_z = chunk_z;
    storey_index = c.storey_index;
    storey_stack = c.storey_stack;
  })

unfoldable pub get_chunk_coord_hash : TileChunkCoord → ℕ
get_chunk_coord_hash c =
    fnv1a_step
      (fnv1a_step
        (fnv1a_step (fnv1a_step fnv1a_basis (to_u32 c.storey_stack)) (to_u32 c.storey_index))
        (to_u32 c.chunk_x))
      (to_u32 c.chunk_z)

unfoldable pub local_index : TileCoord → TileChunkCoord → Option ℕ
local_index c home = do
  x ← local_coord c.x home.chunk_x
  z ← local_coord c.z home.chunk_z
  some (x + z * chunk_size)

abbrev pub tiles_per_chunk : ℕ
tiles_per_chunk = 1024
