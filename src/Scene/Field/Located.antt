-- ===== src/Scene/Field/Located.antt =====
-- Where a coordinate lies.
use hyprie.Base.{ℕ, ◌≡◌, ◌<◌, some, arith}
use hyprie.Scene.Field.{Grid}

module _ (𝓖 : Grid) where
  open 𝓖 use {Coord, ChunkCoord, chunk_of, local_index, volume, local_index-lt}

  -- The chunk of a coordinate and the place in it.
  pub record Located (c : Coord) : Type 0 where
    pub home : ChunkCoord
    pub place : ℕ
    pub chunk : chunk_of c ≡ some home
    pub local : local_index c home ≡ some place
    pub inside : place < volume

  pub locate : (c : Coord) (home : ChunkCoord) → chunk_of c ≡ some home → Located c
  locate c home e =
      let (l, el, h) = local_index-lt c home e in
      record { home = home; place = l; chunk = e; local = el; inside = h }

  pub Located-unique :
      {c d : Coord} (a : Located c) (b : Located d)
      → c ≡ d
      → (a.home ≡ b.home) × (a.place ≡ b.place)
  Located-unique a b e = ground (arith, a.chunk, b.chunk, a.local, b.local)
