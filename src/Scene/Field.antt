-- ===== src/Scene/Field.antt =====
-- What `TileField` (hpr/scene/tile_field.hpp) and `VoxelField` (hpr/scene/voxel_field.hpp) have in
-- common: chunks that are created on the first write, found through a hash of their coordinates.
pub mod Inv
pub mod Located
pub mod Get
pub mod Set
use hyprie.Base.{
  ℕ, zero, suc, ◌+◌, ◌≡◌, ◌<◌, Bool, true, false, Option, none, some, ltb, if◌then◌else◌, ◌>>=◌,
  ◌>>◌, guard, u32, Vault, IndexMap, write,
}

-- The coordinates of a field: the chunk of a cell, the hash of a chunk, the place of a cell in its
-- chunk, and the number of cells in a chunk. The three functions fault outside `int32_t`.
pub record Grid : Type 1 where
  pub Coord : Type 0
  pub ChunkCoord : Type 0
  pub chunk_of : Coord → Option ChunkCoord
  pub key_of : ChunkCoord → ℕ
  pub local_index : Coord → ChunkCoord → Option ℕ
  pub volume : ℕ
  pub local_index-lt :
      (c : Coord) (home : ChunkCoord)
      → chunk_of c ≡ some home
      → (l : ℕ) × (local_index c home ≡ some l) × (l < volume)

module _ (𝓥 : Vault) (𝓜 : IndexMap) (𝓖 : Grid) where
  open 𝓥 use {Vec}
  open 𝓜 use {Map}
  open 𝓖 use {ChunkCoord}

  pub record Chunk : Type 0 where
    pub coord : ChunkCoord
    pub key : ℕ
    pub cells : Vec ℕ

  pub record Field : Type 0 where
    pub chunks : Vec (Chunk)
    pub index : Map

module _ (𝓥 : Vault) (𝓜 : IndexMap) (𝓖 : Grid) where
  open 𝓥 use {Vec, size, at, empty, push_back, store}
  open 𝓜 use {Map, empty_map, find, insert}
  open 𝓖 use {Coord, ChunkCoord, chunk_of, key_of, local_index, volume}

  abbrev pub clear : Field 𝓥 𝓜 𝓖
  clear = record { chunks = empty; index = empty_map }

  unfoldable pub is_empty : Field 𝓥 𝓜 𝓖 → Bool
  is_empty f = if ltb 0 (size f.chunks) then false else true

  -- A pointer to a chunk is its position, `some none` is `nullptr`, and `none` the failed assertion.
  unfoldable pub find_chunk : Field 𝓥 𝓜 𝓖 → ℕ → Option (Option ℕ)
  find_chunk f key = elim (find f.index key) [
    | none ↦ some none
    | some i ↦ guard (ltb i (size f.chunks)) >> some (some i)
  ]

  -- The loop that fills the cells of a new chunk.
  unfoldable pub fill : Vec ℕ → ℕ → ℕ → Vec ℕ
  fill cells zero value = cells
  fill cells (suc n) value = fill (push_back cells value) n value

  unfoldable pub new_chunk : ChunkCoord → ℕ → Chunk 𝓥 𝓜 𝓖
  new_chunk home value = record { coord = home; key = key_of home; cells = fill empty volume value }

  -- The part of `ensure_chunk` behind the search; the result is the position of the new chunk.
  unfoldable pub append_chunk : Field 𝓥 𝓜 𝓖 → ChunkCoord → ℕ → Field 𝓥 𝓜 𝓖 × ℕ
  append_chunk f home value = (
    record {
      chunks = push_back f.chunks (new_chunk home value);
      index = insert f.index (key_of home) (u32 (size f.chunks));
    },
    size f.chunks,
  )

  unfoldable pub ensure_chunk : Field 𝓥 𝓜 𝓖 → ChunkCoord → ℕ → Option (Field 𝓥 𝓜 𝓖 × ℕ)
  ensure_chunk f home value = do
    found ← find_chunk f (key_of home)
    elim found [ some i ↦ some (f, i) | none ↦ some (append_chunk f home value) ]

  unfoldable pub get : Field 𝓥 𝓜 𝓖 → Coord → Option ℕ
  get f c = do
    home ← chunk_of c
    found ← find_chunk f (key_of home)
    elim found [
      | none ↦ some 0
      | some i ↦ local_index c home >>= λ l. at f.chunks i >>= λ chunk. at chunk.cells l
    ]

  -- A write through a reference to a cell.
  unfoldable pub poke : Field 𝓥 𝓜 𝓖 → ℕ → ℕ → ℕ → Option (Field 𝓥 𝓜 𝓖)
  poke f i l value = do
    chunk ← at f.chunks i
    cells ← write 𝓥 chunk.cells l value
    some (record f { chunks = store f.chunks i (record chunk { cells = cells }) })

  unfoldable pub set : Field 𝓥 𝓜 𝓖 → Coord → ℕ → Option (Field 𝓥 𝓜 𝓖)
  set f c value = do
    home ← chunk_of c
    p ← ensure_chunk f home 0
    l ← local_index c home
    poke p.0 p.1 l value

  -- A pointer to a cell is the position of its chunk and its place there.
  unfoldable pub get_ptr : Field 𝓥 𝓜 𝓖 → Coord → Option (Option (ℕ × ℕ))
  get_ptr f c = do
    home ← chunk_of c
    found ← find_chunk f (key_of home)
    elim found [ none ↦ some none | some i ↦ local_index c home >>= λ l. some (some (i, l)) ]
