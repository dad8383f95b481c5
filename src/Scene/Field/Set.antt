-- ===== src/Scene/Field/Set.antt =====
-- Writes to a chunked field.
use hyprie.Base.{
  ℕ, ◌≡◌, ◌<◌, ◌&&◌, ◌==◌, if◌then◌else◌, Option, some, arith, inl, inr, Option-cases, Bool-cases,
  Vault, IndexMap, invalid_u32,
}
use hyprie.Scene.Field.{Grid, Chunk, Field, set, get, poke}
use hyprie.Scene.Field.Inv.{Inv, Holds, cell, ensure_chunk-Ensured}
use hyprie.Scene.Field.Located.{Located}
use hyprie.Scene.Field.Get.{get-cell}

module _ (𝓥 : Vault) (𝓜 : IndexMap) (𝓖 : Grid) where
  open 𝓥 use {size, at, store, at_in, at_out, size_store, at_store}
  open 𝓜 use {find}
  open 𝓖 use {Coord, ChunkCoord, chunk_of, key_of, local_index, volume}

  -- A field that differs from `f` in one cell.
  pub record Poked (f : Field 𝓥 𝓜 𝓖) (key l value : ℕ) (out : Option (Field 𝓥 𝓜 𝓖)) : Type 0 where
    pub after : Field 𝓥 𝓜 𝓖
    pub result : out ≡ some after
    pub inv : Inv 𝓥 𝓜 𝓖 after
    pub update :
        (key' l' : ℕ)
        → l' < volume
        → cell 𝓥 𝓜 𝓖 after key' l'
          ≡ (if (key == key') && (l == l') then value else cell 𝓥 𝓜 𝓖 f key' l')

  module _ {f : Field 𝓥 𝓜 𝓖} (v : Inv 𝓥 𝓜 𝓖 f) (key i l value : ℕ) (e : find f.index key ≡ some i)
      (inside : l < volume) where
    abbrev rewritten : Chunk 𝓥 𝓜 𝓖 → Chunk 𝓥 𝓜 𝓖
    rewritten chunk = record chunk { cells = store chunk.cells l value }

    pub poke-Poked : (h : Holds 𝓥 𝓜 𝓖 f key i) → Poked f key l value (poke 𝓥 𝓜 𝓖 f i l value)
    unfolding poke
    poke-Poked h =
        let new = rewritten h.chunk in
        record {
          after = record f { chunks = store f.chunks i new };
          result = rw h.here (ground (arith, h.full));
          inv = record {
            indexed = λ key' j ej.
                let h' = v.indexed key' j ej in
                elim (Bool-cases (i == j)) [
                  | inl same ↦ record {
                    chunk = new;
                    here = ground (arith, at_store f.chunks i new j, at_out f.chunks i, h.here);
                    keyed = ground (arith, h.here, h'.here, h'.keyed);
                    full = omega (arith, h.full, size_store h.chunk.cells l value);
                  }
                  | inr other ↦ record {
                    chunk = h'.chunk;
                    here =
                        ground
                          (arith, at_store f.chunks i new j, at_out f.chunks i, h.here, h'.here);
                    keyed = h'.keyed;
                    full = h'.full;
                  }
                ];
          };
          update = λ key' l' lt. elim (Option-cases (find f.index key')) [
            | inl absent ↦ ground arith
            | inr (j, ej) ↦
                let h' = v.indexed key' j ej in
                ground (
                  arith,
                  at_store f.chunks i new j,
                  at_out f.chunks i,
                  h.here,
                  h'.here,
                  h.keyed,
                  h'.keyed,
                  at_store h.chunk.cells l value l',
                  h.full,
                )
          ];
        }

  -- `set` never faults at a coordinate that has a chunk coordinate, while the field has fewer than
  -- 0xFFFFFFFF chunks. It keeps the invariant, and changes exactly the cell of the coordinate.
  pub set-Poked :
      {f : Field 𝓥 𝓜 𝓖} (c : Coord) (value : ℕ) (at_c : Located 𝓖 c)
      → Inv 𝓥 𝓜 𝓖 f
      → size f.chunks < invalid_u32
      → Poked f (key_of at_c.home) at_c.place value (set 𝓥 𝓜 𝓖 f c value)
  unfolding set
  set-Poked {f} c value at_c v room =
      let n = ensure_chunk-Ensured 𝓥 𝓜 𝓖 at_c.home 0 v room in
      let p =
        poke-Poked n.inv (key_of at_c.home) n.position at_c.place value n.found at_c.inside
          (n.inv.indexed (key_of at_c.home) n.position n.found) in
      record {
        after = p.after;
        result = rw (at_c.chunk, n.result, at_c.local) p.result;
        inv = p.inv;
        update = λ key' l' lt. elim (Option-cases (find f.index key')) [
          | inl absent ↦ ground (arith, p.update key' l' lt, n.cells key' l' lt)
          | inr (j, ej) ↦ ground (arith, p.update key' l' lt, n.cells key' l' lt)
        ];
      }

  -- A write is read back, and a read at another place, or at another hash, is not affected: where no
  -- two chunk coordinates in use have one hash, a write changes the one cell and no other.
  pub get-set :
      {f : Field 𝓥 𝓜 𝓖} (c d : Coord) (value : ℕ) (at_c : Located 𝓖 c) (at_d : Located 𝓖 d)
      → Inv 𝓥 𝓜 𝓖 f
      → size f.chunks < invalid_u32
      → (f' : Field 𝓥 𝓜 𝓖) × (set 𝓥 𝓜 𝓖 f c value ≡ some f')
        × Inv 𝓥 𝓜 𝓖 f'
        × (get 𝓥 𝓜 𝓖 f' d ≡ (
            if (key_of at_c.home == key_of at_d.home) && (at_c.place == at_d.place)
            then some value
            else get 𝓥 𝓜 𝓖 f d))
  get-set {f} c d value at_c at_d v room =
      let p = set-Poked c value at_c v room in
      (
        p.after,
        p.result,
        p.inv,
        rw (get-cell 𝓥 𝓜 𝓖 d at_d p.inv, get-cell 𝓥 𝓜 𝓖 d at_d v)
            (ground (arith, p.update (key_of at_d.home) at_d.place at_d.inside)),
      )
