-- ===== src/Tests/Fields.antt =====
-- Fields over lists and functions.
use hyprie.Base.{
  ℕ, ◌+◌, ◌*◌, ◌≡◌, ◌≢◌, ◌<◌, ◌≤◌, ◌↔◌, ◌⊎◌, some, refl, arith, ap, list_vault, function_map, ℤ,
  pos, negsuc, neg_part, max_i32,
}
use mathlib.Core.Option.{some-injective}
use mathlib.Core.Path.{sym, ◌∙◌}
use hyprie.Scene.FloorDiv.{floor_div, i32, floor_div-floor, floor_div-defined}
use hyprie.Scene.Field.{clear, set, get}
use hyprie.Scene.Field.Inv.{clear-Inv}
use hyprie.Scene.Tile.{TileCoord, TileChunkCoord, get_chunk_coord, get_chunk_coord_hash}
use hyprie.Scene.Grids.{fnv1a_step}
use hyprie.Scene.Tile.Field.{tile_grid, TileField, get-set_tile}
use hyprie.Scene.Tile.Resize.{resize}
use hyprie.Scene.Tile.Filled.{tile_at, resize-fills}
use hyprie.Scene.Voxel.{VoxelCoord, VoxelChunkCoord, chunk_of, key_of}
use hyprie.Scene.Voxel.Field.{voxel_grid, VoxelField, get-set_voxel}

minus_one : floor_div (negsuc 0) 32 ≡ some (negsuc 0)
unfolding floor_div i32
minus_one = refl

minus_33 : floor_div (negsuc 32) 32 ≡ some (negsuc 1)
unfolding floor_div i32
minus_33 = refl

-- Far down, `(-value) + divisor` is more than the largest `int32_t`.
floor_div-defined_example :
    ((q : ℤ) × (floor_div (negsuc 2147483640) 32 ≡ some q))
    ↔ (neg_part (negsuc 2147483640) ≡ 0 ⊎ 2147483641 + 32 ≤ max_i32)
floor_div-defined_example = floor_div-defined (negsuc 2147483640) 32 (omega arith)

abbrev pub low_tile : TileCoord
low_tile = record { x = negsuc 0; z = pos 5; storey_index = pos 0; storey_stack = pos 0 }

abbrev high_tile : TileCoord
high_tile = record { x = pos 31; z = pos 5; storey_index = pos 0; storey_stack = pos 0 }

floor_div-floor_example : (0 * 32 + 33 ≤ 0 + 2 * 32) × (0 + 2 * 32 < 0 * 32 + 33 + 32)
floor_div-floor_example = floor_div-floor (negsuc 32) 32 minus_33

no_clash :
    (h k : TileChunkCoord)
    → get_chunk_coord low_tile ≡ some h
    → get_chunk_coord high_tile ≡ some k
    → get_chunk_coord_hash h ≡ get_chunk_coord_hash k
    → h ≡ k
unfolding get_chunk_coord floor_div i32 get_chunk_coord_hash fnv1a_step
no_clash h k eh ek e = absurd (omega (arith, hashes))
  where
    hashes : ◌≡◌ {A = ℕ} 1180509245132441826 5558979605539197941
    hashes =
        ap get_chunk_coord_hash (some-injective _ _ eh)
        ∙ e
        ∙ sym (ap get_chunk_coord_hash (some-injective _ _ ek))

get-set_tile_example :
    (f' : TileField list_vault function_map) × (set list_vault function_map tile_grid
        (clear list_vault function_map tile_grid)
        low_tile
        7
      ≡ some f')
    × (low_tile ≡ high_tile → get list_vault function_map tile_grid f' high_tile ≡ some 7)
    × (low_tile ≢ high_tile
        → get list_vault function_map tile_grid f' high_tile
          ≡ get list_vault function_map tile_grid
              (clear list_vault function_map tile_grid)
              high_tile)
get-set_tile_example =
    get-set_tile list_vault function_map low_tile high_tile 7
      (record { range_x = omega arith; range_z = omega arith })
      (record { range_x = omega arith; range_z = omega arith })
      (clear-Inv list_vault function_map tile_grid) (omega arith) no_clash

resize-fills_example :
    (f' : TileField list_vault function_map) × (resize list_vault function_map
        (pos 40)
        (pos 20)
        (pos 2)
        3
      ≡ some f')
    × ((i j k : ℕ)
        → i < 40
        → j < 20
        → k < 2
        → get list_vault function_map tile_grid f' (tile_at i j k) ≡ some 3)
resize-fills_example =
    resize-fills list_vault function_map 40 20 2 3 (omega arith) (omega arith) (omega arith)
      (omega arith) (omega arith) (omega arith)

abbrev low_voxel : VoxelCoord
low_voxel = record { x = negsuc 0; y = pos 40; z = pos 5 }

abbrev high_voxel : VoxelCoord
high_voxel = record { x = pos 31; y = pos 40; z = pos 5 }

no_clash_voxel :
    (h k : VoxelChunkCoord)
    → chunk_of low_voxel ≡ some h
    → chunk_of high_voxel ≡ some k
    → key_of h ≡ key_of k
    → h ≡ k
unfolding chunk_of floor_div i32 key_of fnv1a_step
no_clash_voxel h k eh ek e = absurd (omega (arith, hashes))
  where
    hashes : ◌≡◌ {A = ℕ} 5467053471067518151 15657234800422177934
    hashes = ap key_of (some-injective _ _ eh) ∙ e ∙ sym (ap key_of (some-injective _ _ ek))

get-set_voxel_example :
    (f' : VoxelField list_vault function_map) × (set list_vault function_map voxel_grid
        (clear list_vault function_map voxel_grid)
        low_voxel
        7
      ≡ some f')
    × (low_voxel ≡ high_voxel → get list_vault function_map voxel_grid f' high_voxel ≡ some 7)
    × (low_voxel ≢ high_voxel
        → get list_vault function_map voxel_grid f' high_voxel
          ≡ get list_vault function_map voxel_grid
              (clear list_vault function_map voxel_grid)
              high_voxel)
get-set_voxel_example =
    get-set_voxel list_vault function_map low_voxel high_voxel 7
      (record { range_x = omega arith; range_y = omega arith; range_z = omega arith })
      (record { range_x = omega arith; range_y = omega arith; range_z = omega arith })
      (clear-Inv list_vault function_map voxel_grid) (omega arith) no_clash_voxel
