-- ===== src/Scene/Tile/Resize.antt =====
-- `TileField::resize` of hpr/scene/tile_field.hpp.
use hyprie.Base.{
  ℕ, zero, suc, ◌+◌, ◌-◌, ◌/◌, Option, some, Bool, true, false, ◌||◌, ◌>>=◌, if◌then◌else◌, Vault,
  IndexMap, ℤ, pos, negsuc,
}
use hyprie.Scene.FloorDiv.{i32}
use hyprie.Scene.Grids.{chunk_size}
use hyprie.Scene.Field.{clear, ensure_chunk}
use hyprie.Scene.Tile.{TileChunkCoord}
use hyprie.Scene.Tile.Field.{tile_grid, TileField}

-- The chunk at a position of the one building, stack 0.
abbrev pub chunk_at : ℕ → ℕ → ℕ → TileChunkCoord
chunk_at storey z x = record {
  chunk_x = pos x;
  chunk_z = pos z;
  storey_index = pos storey;
  storey_stack = pos 0;
}

-- `width <= 0`
abbrev pub not_positive : ℤ → Bool
not_positive (pos zero) = true
not_positive (pos (suc n)) = false
not_positive (negsuc n) = true

abbrev pub magnitude : ℤ → ℕ
magnitude (pos n) = n
magnitude (negsuc n) = 0

-- `(width + chunk_size - 1) / chunk_size` for a positive width: the sum is an `int32_t`.
unfoldable pub chunk_count : ℕ → Option ℕ
unfolding i32
chunk_count width = do sum ← i32 (width + chunk_size); some ((sum - 1) / chunk_size)

module _ (𝓥 : Vault) (𝓜 : IndexMap) where
  -- The three loops, each over the `n` values from the last argument but one on.
  unfoldable pub resize_x : TileField 𝓥 𝓜 → ℕ → ℕ → ℕ → ℕ → ℕ → Option (TileField 𝓥 𝓜)
  resize_x f value storey z x zero = some f
  resize_x f value storey z x (suc n) = do
    p ← ensure_chunk 𝓥 𝓜 tile_grid f (chunk_at storey z x) value
    resize_x p.0 value storey z (x + 1) n

  unfoldable pub resize_z : TileField 𝓥 𝓜 → ℕ → ℕ → ℕ → ℕ → ℕ → Option (TileField 𝓥 𝓜)
  resize_z f value storey count_x z zero = some f
  resize_z f value storey count_x z (suc n) = do
    f' ← resize_x f value storey z 0 count_x
    resize_z f' value storey count_x (z + 1) n

  unfoldable pub resize_storeys : TileField 𝓥 𝓜 → ℕ → ℕ → ℕ → ℕ → ℕ → Option (TileField 𝓥 𝓜)
  resize_storeys f value count_x count_z storey zero = some f
  resize_storeys f value count_x count_z storey (suc n) = do
    f' ← resize_z f value storey count_x 0 count_z
    resize_storeys f' value count_x count_z (storey + 1) n

  -- The calls of `reserve` change no content.
  unfoldable pub resize : ℤ → ℤ → ℤ → ℕ → Option (TileField 𝓥 𝓜)
  resize width height storeys value =
      if not_positive width || not_positive height || not_positive storeys
      then some (clear 𝓥 𝓜 tile_grid)
      else (do
        count_x ← chunk_count (magnitude width)
        count_z ← chunk_count (magnitude height)
        resize_storeys (clear 𝓥 𝓜 tile_grid) value count_x count_z 0 (magnitude storeys))
