-- ===== src/Scene/Field/Get.antt =====
-- Reads of a chunked field.
use hyprie.Base.{◌≡◌, none, some, arith, inl, inr, Option-cases, Vault, IndexMap}
use hyprie.Scene.Field.{Grid, Field, get, get_ptr}
use hyprie.Scene.Field.Located.{Located}
use hyprie.Scene.Field.Inv.{Inv, cell, find_chunk-find}

module _ (𝓥 : Vault) (𝓜 : IndexMap) (𝓖 : Grid) where
  open 𝓥 use {size, at, at_in}
  open 𝓜 use {find}
  open 𝓖 use {Coord, ChunkCoord, chunk_of, key_of, local_index, volume, local_index-lt}

  -- `get` never faults at a coordinate that has a chunk coordinate, and returns its cell.
  pub get-cell :
      {f : Field 𝓥 𝓜 𝓖} (c : Coord) (at_c : Located 𝓖 c)
      → Inv 𝓥 𝓜 𝓖 f
      → get 𝓥 𝓜 𝓖 f c ≡ some (cell 𝓥 𝓜 𝓖 f (key_of at_c.home) at_c.place)
  unfolding get
  get-cell {f} c at_c v =
      rw (at_c.chunk, find_chunk-find 𝓥 𝓜 𝓖 (key_of at_c.home) v)
        (elim (Option-cases (find f.index (key_of at_c.home))) [
          | inl absent ↦ rw absent (ground arith)
          | inr (i, e) ↦
              let h = v.indexed (key_of at_c.home) i e in
              let (value, ev) = at_in h.chunk.cells at_c.place (rw h.full at_c.inside) in
              rw (e, at_c.local, h.here, ev) (ground (arith, h.here))
        ])

  -- `get_ptr` never faults there, and returns the position of the cell or `nullptr`.
  pub get_ptr-find :
      {f : Field 𝓥 𝓜 𝓖} (c : Coord) (at_c : Located 𝓖 c)
      → Inv 𝓥 𝓜 𝓖 f
      → get_ptr 𝓥 𝓜 𝓖 f c
        ≡ some
            (elim (find f.index (key_of at_c.home)) [ none ↦ none | some i ↦ some (i, at_c.place) ])
  unfolding get_ptr
  get_ptr-find {f} c at_c v =
      rw (at_c.chunk, find_chunk-find 𝓥 𝓜 𝓖 (key_of at_c.home) v)
        (elim (Option-cases (find f.index (key_of at_c.home))) [
          | inl absent ↦ rw absent
          | inr (i, e) ↦ rw (e, at_c.local)
        ])
