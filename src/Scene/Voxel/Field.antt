-- ===== src/Scene/Voxel/Field.antt =====
-- `VoxelField` of hpr/scene/voxel_field.hpp: the chunked field over the voxel grid.
use hyprie.Base.{
  Option, Bool, ℕ, ◌+◌, ◌*◌, ◌≡◌, ◌≢◌, ◌<◌, ◌≤◌, some, ◌∙◌, arith, inr, Vault, IndexMap,
  invalid_u32, neg_part, max_i32,
}
use hyprie.Scene.FloorDiv.{floor_div-defined}
use hyprie.Scene.Grids.{chunk_size, Split, floor_div-Split, Split-injective}
use hyprie.Scene.Field
use hyprie.Scene.Field.{Grid}
use hyprie.Scene.Field.Inv
use hyprie.Scene.Field.Located.{Located, locate, Located-unique}
use hyprie.Scene.Field.Set.{get-set}
use hyprie.Scene.Voxel.{
  VoxelCoord, VoxelChunkCoord, chunk_of, key_of, local_index, voxels_per_chunk,
}

-- The parts of a chunk coordinate.
record InChunk (c : VoxelCoord) (home : VoxelChunkCoord) : Type 0 where
  along_x : Split c.x home.chunk_x
  along_y : Split c.y home.chunk_y
  along_z : Split c.z home.chunk_z

abbrev place_of : {c : VoxelCoord} {home : VoxelChunkCoord} → InChunk c home → ℕ
place_of p = p.along_x.place + p.along_z.place * 32 + p.along_y.place * 1024

chunk_of-InChunk :
    (c : VoxelCoord) (home : VoxelChunkCoord) → chunk_of c ≡ some home → InChunk c home
unfolding chunk_of
chunk_of-InChunk c home e = record {
  along_x = floor_div-Split c.x home.chunk_x (ground arith);
  along_y = floor_div-Split c.y home.chunk_y (ground arith);
  along_z = floor_div-Split c.z home.chunk_z (ground arith);
}

local_index-eq :
    {c : VoxelCoord} {home : VoxelChunkCoord} (p : InChunk c home)
    → local_index c home ≡ some (place_of p)
unfolding local_index
local_index-eq p = rw (p.along_x.result, p.along_y.result, p.along_z.result)

pub local_index-lt :
    (c : VoxelCoord) (home : VoxelChunkCoord)
    → chunk_of c ≡ some home
    → (l : ℕ) × (local_index c home ≡ some l) × (l < voxels_per_chunk)
local_index-lt c home e =
    let p = chunk_of-InChunk c home e in
    (_, local_index-eq p, omega (arith, p.along_x.inside, p.along_y.inside, p.along_z.inside))

abbrev pub voxel_grid : Grid
voxel_grid = record {
  Coord = VoxelCoord;
  ChunkCoord = VoxelChunkCoord;
  chunk_of = chunk_of;
  key_of = key_of;
  local_index = local_index;
  volume = voxels_per_chunk;
  local_index-lt = local_index-lt;
}

-- A coordinate for which `floor_div` does not overflow.
pub record InRange (c : VoxelCoord) : Type 0 where
  pub range_x : neg_part c.x + chunk_size ≤ max_i32
  pub range_y : neg_part c.y + chunk_size ≤ max_i32
  pub range_z : neg_part c.z + chunk_size ≤ max_i32

pub locate_voxel : (c : VoxelCoord) → InRange c → Located voxel_grid c
unfolding chunk_of
locate_voxel c r =
    let (x, ex) = (floor_div-defined c.x 32 (omega arith)).1 (inr r.range_x) in
    let (y, ey) = (floor_div-defined c.y 32 (omega arith)).1 (inr r.range_y) in
    let (z, ez) = (floor_div-defined c.z 32 (omega arith)).1 (inr r.range_z) in
    locate voxel_grid c (record { chunk_x = x; chunk_y = y; chunk_z = z }) (rw (ex, ey, ez))

same_places :
    {c d : VoxelCoord} {home : VoxelChunkCoord} (p : InChunk c home) (q : InChunk d home)
    → place_of p ≡ place_of q
    → c ≡ d
same_places {c} {d} p q e =
    let fx : c.x ≡ d.x = Split-injective p.along_x q.along_x (omega (arith, inside)) in
    let fy : c.y ≡ d.y = Split-injective p.along_y q.along_y (omega (arith, inside)) in
    let fz : c.z ≡ d.z = Split-injective p.along_z q.along_z (omega (arith, inside)) in ground arith
  where
    inside :
        (p.along_x.place < 32)
        × (p.along_z.place < 32)
        × (q.along_x.place < 32)
        × (q.along_z.place < 32)
    inside = (p.along_x.inside, p.along_z.inside, q.along_x.inside, q.along_z.inside)

-- Two voxels with one chunk and one place in it are one voxel.
pub Located-injective_voxel :
    {c d : VoxelCoord} (a : Located voxel_grid c) (b : Located voxel_grid d)
    → a.home ≡ b.home
    → a.place ≡ b.place
    → c ≡ d
Located-injective_voxel {c} {d} a b eh ep =
    same_places p q (ground (arith, local_index-eq p, local_index-eq q, a.local, b.local))
  where
    p : InChunk c a.home
    p = chunk_of-InChunk c a.home a.chunk

    q : InChunk d a.home
    q = chunk_of-InChunk d a.home (rw eh b.chunk)

module _ (𝓥 : Vault) (𝓜 : IndexMap) where
  open 𝓥 use {size}

  abbrev pub VoxelField : Type 0
  VoxelField = Field.Field 𝓥 𝓜 voxel_grid

  -- The methods of the class.
  abbrev pub clear : VoxelField
  clear = Field.clear 𝓥 𝓜 voxel_grid

  abbrev pub is_empty : VoxelField → Bool
  is_empty f = Field.is_empty 𝓥 𝓜 voxel_grid f

  abbrev pub find_chunk : VoxelField → ℕ → Option (Option ℕ)
  find_chunk f key = Field.find_chunk 𝓥 𝓜 voxel_grid f key

  abbrev pub ensure_chunk : VoxelField → VoxelChunkCoord → ℕ → Option (VoxelField × ℕ)
  ensure_chunk f home value = Field.ensure_chunk 𝓥 𝓜 voxel_grid f home value

  abbrev pub get : VoxelField → VoxelCoord → Option ℕ
  get f c = Field.get 𝓥 𝓜 voxel_grid f c

  abbrev pub set : VoxelField → VoxelCoord → ℕ → Option VoxelField
  set f c value = Field.set 𝓥 𝓜 voxel_grid f c value

  abbrev pub get_ptr : VoxelField → VoxelCoord → Option (Option (ℕ × ℕ))
  get_ptr f c = Field.get_ptr 𝓥 𝓜 voxel_grid f c

  -- Where the hash tells the chunks of two voxels apart, if they are two, `set` at one voxel
  -- succeeds, is read back by `get` there, and is not seen at any other voxel.
  pub get-set_voxel :
      {f : VoxelField} (c d : VoxelCoord) (value : ℕ) (rc : InRange c) (rd : InRange d)
      → Inv.Inv 𝓥 𝓜 voxel_grid f
      → size f.chunks < invalid_u32
      → ((h k : VoxelChunkCoord)
          → chunk_of c ≡ some h
          → chunk_of d ≡ some k
          → key_of h ≡ key_of k
          → h ≡ k)
      → (f' : VoxelField) × (set f c value ≡ some f')
        × (c ≡ d → get f' d ≡ some value)
        × (c ≢ d → get f' d ≡ get f d)
  get-set_voxel {f} c d value rc rd v room no_clash =
      let a = locate_voxel c rc in
      let b = locate_voxel d rd in
      let r = get-set 𝓥 𝓜 voxel_grid c d value a b v room in
      (
        r.0,
        r.1,
        (λ e. r.3 ∙ ground (arith, Located-unique voxel_grid a b e)),
        λ ne.
            r.3
            ∙ ground (
              arith,
              no_clash a.home b.home a.chunk b.chunk,
              λ (p : a.home ≡ b.home).
                  λ (q : a.place ≡ b.place). ne (Located-injective_voxel a b p q),
            ),
      )
