-- ===== src/Tests/Edits.antt =====
-- Edits of tiles over lists and functions.
use hyprie.Base.{
  ℕ, zero, suc, ◌+◌, ◌≡◌, ◌<◌, some, arith, list_vault, function_map, get_elem?, [], ◌∷◌, true,
}
use hyprie.Scene.Field.{clear}
use hyprie.Scene.Field.Inv.{clear-Inv, cell, Ensured, ensure_chunk-Ensured}
use hyprie.Scene.Field.Located.{Located}
use hyprie.Scene.Tile.{TileCoord, get_chunk_coord_hash, tiles_per_chunk}
use hyprie.Scene.Tile.Field.{tile_grid, TileField, locate_tile}
use hyprie.Scene.Tile.Edit.{TileEdit, TileEditBatch, apply_edit, apply}
use hyprie.Scene.Tile.Edit.Step.{Applied, apply_edit-Applied, apply_edit-inverse, inverse, hits}
use hyprie.Scene.Tile.Edit.Batch.{Ran, apply-Ran}
use hyprie.Tests.Fields.{low_tile}

-- A callback that counts its calls.
abbrev count : TileCoord → ℕ → ℕ
count c n = n + 1

low_tile-Located : Located tile_grid low_tile
low_tile-Located = locate_tile low_tile (record { range_x = omega arith; range_z = omega arith })

grown :
    Ensured list_vault function_map tile_grid
      (clear list_vault function_map tile_grid)
      low_tile-Located.home
      3
grown =
    ensure_chunk-Ensured list_vault function_map tile_grid low_tile-Located.home 3
      (clear-Inv list_vault function_map tile_grid) (omega arith)

-- It takes effect on a field that holds 3 there.
abbrev to_7 : TileEdit
to_7 = record { coord = low_tile; before = 3; after = 7 }

to_7-hits : hits list_vault function_map count grown.after to_7 low_tile-Located ≡ true
to_7-hits = ground (
  arith,
  grown.found,
  grown.cells (get_chunk_coord_hash low_tile-Located.home) low_tile-Located.place
      low_tile-Located.inside,
)

apply_edit-Applied_example :
    Applied list_vault function_map count grown.after 0 0 to_7 low_tile-Located
      (apply_edit list_vault function_map count grown.after 0 0 to_7)
apply_edit-Applied_example =
    apply_edit-Applied list_vault function_map count 0 0 to_7 low_tile-Located grown.inv

apply_edit-inverse_example :
    (f' f'' : TileField list_vault function_map) × (apply_edit list_vault function_map count
        grown.after 0 0 to_7
      ≡ some (f', 1, 1))
    × (apply_edit list_vault function_map count f' 0 0 (inverse list_vault function_map count to_7)
        ≡ some (f'', 1, 1))
    × ((key l : ℕ)
        → l < tiles_per_chunk
        → cell list_vault function_map tile_grid f'' key l
          ≡ cell list_vault function_map tile_grid grown.after key l)
apply_edit-inverse_example =
    apply_edit-inverse list_vault function_map count 0 0 to_7 low_tile-Located grown.inv to_7-hits

abbrev two_edits : TileEditBatch list_vault
two_edits = record { edits = to_7 ∷ to_7 ∷ [] }

two_edits-located :
    (i : ℕ) (edit : TileEdit)
    → get_elem? two_edits.edits i ≡ some edit
    → Located tile_grid edit.coord
two_edits-located i edit e = locate_tile edit.coord (record {
  range_x = ground (arith, at_low i edit e);
  range_z = ground (arith, at_low i edit e);
})
  where
    at_low :
        (i : ℕ) (edit : TileEdit) → get_elem? two_edits.edits i ≡ some edit → edit.coord ≡ low_tile
    at_low zero edit e = ground arith
    at_low (suc zero) edit e = ground arith
    at_low (suc (suc i)) edit e = absurd (ground arith)

apply-Ran_example :
    Ran list_vault function_map count two_edits two_edits-located grown.after 0 0 2
      (apply list_vault function_map count two_edits grown.after 0)
apply-Ran_example =
    apply-Ran list_vault function_map count two_edits two_edits-located 0 grown.inv (omega arith)
