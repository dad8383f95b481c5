-- ===== src/Scene/Tile/Field.antt =====
-- `TileField` of hpr/scene/tile_field.hpp: the chunked field over the tile grid.
use hyprie.Base.{
  ℕ, ◌+◌, ◌*◌, ◌≡◌, ◌≢◌, ◌<◌, ◌≤◌, some, ◌∙◌, arith, inr, Vault, IndexMap, invalid_u32, neg_part,
  max_i32,
}
use hyprie.Scene.FloorDiv.{floor_div-defined}
use hyprie.Scene.Grids.{chunk_size, Split, floor_div-Split, Split-injective}
use hyprie.Scene.Field
use hyprie.Scene.Field.{Grid}
use hyprie.Scene.Field.Inv
use hyprie.Scene.Field.Located.{Located, locate, Located-unique}
use hyprie.Scene.Field.Set.{get-set}
use hyprie.Scene.Tile.{
  TileCoord, TileChunkCoord, get_chunk_coord, get_chunk_coord_hash, local_index, tiles_per_chunk,
}

-- The parts of a chunk coordinate.
record InChunk (c : TileCoord) (home : TileChunkCoord) : Type 0 where
  along_x : Split c.x home.chunk_x
  along_z : Split c.z home.chunk_z
  same_index : home.storey_index ≡ c.storey_index
  same_stack : home.storey_stack ≡ c.storey_stack

get_chunk_coord-InChunk :
    (c : TileCoord) (home : TileChunkCoord) → get_chunk_coord c ≡ some home → InChunk c home
unfolding get_chunk_coord
get_chunk_coord-InChunk c home e = record {
  along_x = floor_div-Split c.x home.chunk_x (ground arith);
  along_z = floor_div-Split c.z home.chunk_z (ground arith);
  same_index = ground arith;
  same_stack = ground arith;
}

local_index-eq :
    {c : TileCoord} {home : TileChunkCoord} (p : InChunk c home)
    → local_index c home ≡ some (p.along_x.place + p.along_z.place * chunk_size)
unfolding local_index
local_index-eq p = rw (p.along_x.result, p.along_z.result)

pub local_index-lt :
    (c : TileCoord) (home : TileChunkCoord)
    → get_chunk_coord c ≡ some home
    → (l : ℕ) × (local_index c home ≡ some l) × (l < tiles_per_chunk)
local_index-lt c home e =
    let p = get_chunk_coord-InChunk c home e in
    (_, local_index-eq p, omega (arith, p.along_x.inside, p.along_z.inside))

abbrev pub tile_grid : Grid
tile_grid = record {
  Coord = TileCoord;
  ChunkCoord = TileChunkCoord;
  chunk_of = get_chunk_coord;
  key_of = get_chunk_coord_hash;
  local_index = local_index;
  volume = tiles_per_chunk;
  local_index-lt = local_index-lt;
}

-- A coordinate for which `floor_div` does not overflow.
pub record InRange (c : TileCoord) : Type 0 where
  pub range_x : neg_part c.x + chunk_size ≤ max_i32
  pub range_z : neg_part c.z + chunk_size ≤ max_i32

pub locate_tile : (c : TileCoord) → InRange c → Located tile_grid c
unfolding get_chunk_coord
locate_tile c r =
    let (x, ex) = (floor_div-defined c.x 32 (omega arith)).1 (inr r.range_x) in
    let (z, ez) = (floor_div-defined c.z 32 (omega arith)).1 (inr r.range_z) in
    locate tile_grid c
      (record {
        chunk_x = x;
        chunk_z = z;
        storey_index = c.storey_index;
        storey_stack = c.storey_stack;
      })
      (rw (ex, ez))

same_places :
    {c d : TileCoord} {home : TileChunkCoord} (p : InChunk c home) (q : InChunk d home)
    → p.along_x.place + p.along_z.place * 32 ≡ q.along_x.place + q.along_z.place * 32
    → c ≡ d
same_places {c} {d} p q e =
    let fx : c.x ≡ d.x =
      Split-injective p.along_x q.along_x (omega (arith, p.along_x.inside, q.along_x.inside)) in
    let fz : c.z ≡ d.z =
      Split-injective p.along_z q.along_z (omega (arith, p.along_x.inside, q.along_x.inside)) in
    ground (arith, p.same_index, p.same_stack, q.same_index, q.same_stack)

-- Two tiles with one chunk and one place in it are one tile.
pub Located-injective :
    {c d : TileCoord} (a : Located tile_grid c) (b : Located tile_grid d)
    → a.home ≡ b.home
    → a.place ≡ b.place
    → c ≡ d
Located-injective {c} {d} a b eh ep = same_places p q (
    ground (
      arith,
      local_index-eq p,
      local_index-eq q,
      a.local,
      b.local,
      p.along_x.inside,
      q.along_x.inside,
    ))
  where
    p : InChunk c a.home
    p = get_chunk_coord-InChunk c a.home a.chunk

    q : InChunk d a.home
    q = get_chunk_coord-InChunk d a.home (rw eh b.chunk)

module _ (𝓥 : Vault) (𝓜 : IndexMap) where
  open 𝓥 use {size}

  abbrev pub TileField : Type 0
  TileField = Field.Field 𝓥 𝓜 tile_grid

  -- Where the hash tells the chunks of two tiles apart, if they are two, `set` at one tile succeeds,
  -- is read back by `get` there, and is not seen at any other tile.
  pub get-set_tile :
      {f : TileField} (c d : TileCoord) (value : ℕ) (rc : InRange c) (rd : InRange d)
      → Inv.Inv 𝓥 𝓜 tile_grid f
      → size f.chunks < invalid_u32
      → ((h k : TileChunkCoord)
          → get_chunk_coord c ≡ some h
          → get_chunk_coord d ≡ some k
          → get_chunk_coord_hash h ≡ get_chunk_coord_hash k
          → h ≡ k)
      → (f' : TileField) × (Field.set 𝓥 𝓜 tile_grid f c value ≡ some f')
        × (c ≡ d → Field.get 𝓥 𝓜 tile_grid f' d ≡ some value)
        × (c ≢ d → Field.get 𝓥 𝓜 tile_grid f' d ≡ Field.get 𝓥 𝓜 tile_grid f d)
  get-set_tile {f} c d value rc rd v room no_clash =
      let a = locate_tile c rc in
      let b = locate_tile d rd in
      let r = get-set 𝓥 𝓜 tile_grid c d value a b v room in
      (
        r.0,
        r.1,
        (λ e. r.3 ∙ ground (arith, Located-unique tile_grid a b e)),
        λ ne.
            r.3
            ∙ ground (
              arith,
              no_clash a.home b.home a.chunk b.chunk,
              λ (p : a.home ≡ b.home). λ (q : a.place ≡ b.place). ne (Located-injective a b p q),
            ),
      )
