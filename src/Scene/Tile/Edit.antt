-- ===== src/Scene/Tile/Edit.antt =====
-- `TileEditBatch` of hpr/scene/tile_edit.hpp: recorded edits of tiles.
pub mod Step
pub mod Batch
use hyprie.Base.{
  ℕ, zero, suc, ◌+◌, Option, none, some, Bool, true, false, not, ltb, ◌==◌, if◌then◌else◌, ◌>>=◌,
  ◌||◌, u32, Vault, IndexMap,
}
use hyprie.Scene.Field.{get_ptr, poke}
use hyprie.Scene.Tile.{TileCoord}
use hyprie.Scene.Tile.Field.{tile_grid, TileField}

pub record TileEdit : Type 0 where
  pub coord : TileCoord
  pub before : ℕ
  pub after : ℕ

module _ (𝓥 : Vault) where
  open 𝓥 use {Vec, size, empty, push_back}

  pub record TileEditBatch : Type 0 where
    pub edits : Vec TileEdit

  abbrev pub clear : TileEditBatch
  clear = record { edits = empty }

  unfoldable pub push : TileEditBatch → TileCoord → ℕ → ℕ → TileEditBatch
  push b coord before after = record {
    edits = push_back b.edits (record { coord = coord; before = before; after = after });
  }

  unfoldable pub is_empty : TileEditBatch → Bool
  is_empty b = not (ltb 0 (size b.edits))

-- `mark_dirty` is a callback with a state of its own.
module _ (𝓥 : Vault) (𝓜 : IndexMap) {S : Type 0} (mark_dirty : TileCoord → S → S) where
  open 𝓥 use {Vec, size, at}

  -- The body of the loop of `apply`, at a pointer to a tile: chunk `p.0`, place `p.1`.
  unfoldable pub apply_at :
      TileField 𝓥 𝓜 → S → ℕ → TileEdit → ℕ × ℕ → Option (TileField 𝓥 𝓜 × S × ℕ)
  apply_at f s applied edit p = do
    chunk ← at f.chunks p.0
    current ← at chunk.cells p.1
    if not (current == edit.before) || current == edit.after
        then some (f, s, applied)
        else (poke 𝓥 𝓜 tile_grid f p.0 p.1 edit.after >>= λ f'.
            some (f', mark_dirty edit.coord s, u32 (applied + 1)))

  unfoldable pub apply_edit : TileField 𝓥 𝓜 → S → ℕ → TileEdit → Option (TileField 𝓥 𝓜 × S × ℕ)
  apply_edit f s applied edit = do
    tile_ptr ← get_ptr 𝓥 𝓜 tile_grid f edit.coord
    elim tile_ptr [ none ↦ some (f, s, applied) | some p ↦ apply_at f s applied edit p ]

  -- The loop over `n` edits from index `i` on.
  unfoldable pub apply_from :
      TileEditBatch 𝓥 → TileField 𝓥 𝓜 → S → ℕ → ℕ → ℕ → Option (TileField 𝓥 𝓜 × S × ℕ)
  apply_from b f s applied i zero = some (f, s, applied)
  apply_from b f s applied i (suc n) = do
    edit ← at b.edits i
    r ← apply_edit f s applied edit
    apply_from b r.0 r.1 r.2 (i + 1) n

  unfoldable pub apply : TileEditBatch 𝓥 → TileField 𝓥 𝓜 → S → Option (TileField 𝓥 𝓜 × S × ℕ)
  apply b f s = apply_from b f s 0 0 (size b.edits)
