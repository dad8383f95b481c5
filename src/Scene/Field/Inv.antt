-- ===== src/Scene/Field/Inv.antt =====
-- The invariant of a chunked field, and the cells that it stands for.
use hyprie.Base.{
  ℕ, zero, suc, ◌+◌, ◌≡◌, ◌≢◌, ◌<◌, ◌≤◌, Option, none, some, refl, arith, ◌==◌, ltb, if◌then◌else◌,
  Bool-cases, inl, inr, Option-cases, Vault, IndexMap, invalid_u32,
}
use hyprie.Scene.Field.{
  Grid, Chunk, Field, clear, find_chunk, fill, new_chunk, append_chunk, ensure_chunk,
}

module _ (𝓥 : Vault) (𝓜 : IndexMap) (𝓖 : Grid) where
  open 𝓥 use {
    Vec, size, at, empty, push_back, at_in, at_out, size_push_back, at_push_back, size_empty,
  }
  open 𝓜 use {Map, find, insert, find_empty_map, find_insert}
  open 𝓖 use {ChunkCoord, key_of, volume}

  -- A chunk for a hash, with all its cells.
  pub record Holds (f : Field 𝓥 𝓜 𝓖) (key i : ℕ) : Type 0 where
    pub chunk : Chunk 𝓥 𝓜 𝓖
    pub here : at f.chunks i ≡ some chunk
    pub keyed : chunk.key ≡ key
    pub full : size chunk.cells ≡ volume

  -- The map leads each hash to a chunk of that hash.
  pub record Inv (f : Field 𝓥 𝓜 𝓖) : Type 0 where
    pub indexed : (key i : ℕ) → find f.index key ≡ some i → Holds f key i

  abbrev pub cell_of : Option (Chunk 𝓥 𝓜 𝓖) → ℕ → ℕ
  cell_of none l = 0
  cell_of (some chunk) l = elim (at chunk.cells l) [ none ↦ 0 | some value ↦ value ]

  -- The cell at a hash and a place: 0 where there is no chunk.
  abbrev pub cell : Field 𝓥 𝓜 𝓖 → ℕ → ℕ → ℕ
  cell f key l = elim (find f.index key) [ none ↦ 0 | some i ↦ cell_of (at f.chunks i) l ]

  pub clear-Inv : Inv (clear 𝓥 𝓜 𝓖)
  clear-Inv = record { indexed = λ key i e. absurd (ground (arith, find_empty_map key)) }

  fill_lem :
      (n : ℕ) (cells : Vec ℕ) (value : ℕ)
      → (size (fill 𝓥 𝓜 𝓖 cells n value) ≡ size cells + n)
        × ((l : ℕ)
            → at (fill 𝓥 𝓜 𝓖 cells n value) l ≡ (
                if ltb l (size cells)
                then at cells l
                else if ltb l (size cells + n)
                then some value
                else none))
  unfolding fill
  fill_lem zero cells value = (omega arith, λ l. ground (arith, at_out cells l))
  fill_lem (suc n) cells value =
      let ih = fill_lem n (push_back cells value) value in
      (
        omega (arith, ih.0, size_push_back cells value),
        λ l. ground (arith, ih.1 l, size_push_back cells value, at_push_back cells value l),
      )

  pub size-fill : (n value : ℕ) → size (fill 𝓥 𝓜 𝓖 empty n value) ≡ n
  size-fill n value = omega (arith, (fill_lem n empty value).0, size_empty {A = ℕ})

  pub at-fill : (n value l : ℕ) → l < n → at (fill 𝓥 𝓜 𝓖 empty n value) l ≡ some value
  at-fill n value l h = ground (arith, (fill_lem n empty value).1 l, size_empty {A = ℕ})

  -- `find_chunk` never faults, and finds the position that the map holds.
  pub find_chunk-find :
      {f : Field 𝓥 𝓜 𝓖} (key : ℕ) → Inv f → find_chunk 𝓥 𝓜 𝓖 f key ≡ some (find f.index key)
  unfolding find_chunk
  find_chunk-find {f} key v = elim (Option-cases (find f.index key)) [
    | inl e ↦ ground arith
    | inr (i, e) ↦ ground (arith, (v.indexed key i e).here, at_out f.chunks i)
  ]

  -- What `ensure_chunk` does: it leads to a chunk of the hash, and changes a cell only if the chunk
  -- was absent.
  pub record Ensured (f : Field 𝓥 𝓜 𝓖) (home : ChunkCoord) (value : ℕ) : Type 0 where
    pub after : Field 𝓥 𝓜 𝓖
    pub position : ℕ
    pub result : ensure_chunk 𝓥 𝓜 𝓖 f home value ≡ some (after, position)
    pub inv : Inv after
    pub found : find after.index (key_of home) ≡ some position
    pub others : (key : ℕ) → key ≢ key_of home → find after.index key ≡ find f.index key
    pub same_chunks : (i : ℕ) → i < size f.chunks → at after.chunks i ≡ at f.chunks i
    pub grows : (size f.chunks ≤ size after.chunks) × (size after.chunks ≤ size f.chunks + 1)
    pub cells :
        (key l : ℕ)
        → l < volume
        → cell after key l ≡ elim (find f.index key) [
          | some i ↦ cell f key l
          | none ↦ if key == key_of home then value else 0
        ]

  module _ {f : Field 𝓥 𝓜 𝓖} (home : ChunkCoord) (value : ℕ) (v : Inv f)
      (room : size f.chunks < invalid_u32) (absent : find f.index (key_of home) ≡ none) where
    abbrev grown : Field 𝓥 𝓜 𝓖
    grown = record {
      chunks = push_back f.chunks (new_chunk 𝓥 𝓜 𝓖 home value);
      index = insert f.index (key_of home) (size f.chunks);
    }

    new_chunk-keyed :
        ((new_chunk 𝓥 𝓜 𝓖 home value).key ≡ key_of home)
        × (size (new_chunk 𝓥 𝓜 𝓖 home value).cells ≡ volume)
    unfolding new_chunk
    new_chunk-keyed = (refl, size-fill volume value)

    grown-Inv : Inv grown
    grown-Inv = record {
      indexed = λ key i e. elim (Bool-cases (key_of home == key)) [
        | inl same ↦ record {
          chunk = new_chunk 𝓥 𝓜 𝓖 home value;
          here = ground (
            arith,
            find_insert f.index (key_of home) (size f.chunks) key,
            at_push_back f.chunks (new_chunk 𝓥 𝓜 𝓖 home value) i,
          );
          keyed = ground (arith, new_chunk-keyed);
          full = new_chunk-keyed.1;
        }
        | inr other ↦
            let h =
              v.indexed key i
                (ground (arith, find_insert f.index (key_of home) (size f.chunks) key)) in
            record {
              chunk = h.chunk;
              here = ground (
                arith,
                h.here,
                at_push_back f.chunks (new_chunk 𝓥 𝓜 𝓖 home value) i,
                at_out f.chunks i,
              );
              keyed = h.keyed;
              full = h.full;
            }
      ];
    }

    grown-new : (l : ℕ) → l < volume → cell grown (key_of home) l ≡ value
    unfolding new_chunk
    grown-new l h = ground (
      arith,
      find_insert f.index (key_of home) (size f.chunks) (key_of home),
      at_push_back f.chunks (new_chunk 𝓥 𝓜 𝓖 home value) (size f.chunks),
      at-fill volume value l h,
    )

    grown-cells :
        (key l : ℕ)
        → l < volume
        → cell grown key l ≡ elim (find f.index key) [
          | some i ↦ cell f key l
          | none ↦ if key == key_of home then value else 0
        ]
    grown-cells key l h = elim (Option-cases (find f.index key)) [
      | inl none_here ↦
          ground (arith, find_insert f.index (key_of home) (size f.chunks) key, grown-new l h)
      | inr (i, e) ↦ ground (
        arith,
        find_insert f.index (key_of home) (size f.chunks) key,
        at_push_back f.chunks (new_chunk 𝓥 𝓜 𝓖 home value) i,
        at_out f.chunks i,
        (v.indexed key i e).here,
      )
    ]

    grown-Ensured : Ensured f home value
    unfolding ensure_chunk append_chunk
    grown-Ensured = record {
      after = grown;
      position = size f.chunks;
      result = rw (find_chunk-find (key_of home) v, absent) (ground arith);
      inv = grown-Inv;
      found = ground (arith, find_insert f.index (key_of home) (size f.chunks) (key_of home));
      others = λ key ne. ground (arith, find_insert f.index (key_of home) (size f.chunks) key);
      same_chunks = λ i h. ground (arith, at_push_back f.chunks (new_chunk 𝓥 𝓜 𝓖 home value) i);
      grows = omega (arith, size_push_back f.chunks (new_chunk 𝓥 𝓜 𝓖 home value));
      cells = grown-cells;
    }

  pub ensure_chunk-Ensured :
      {f : Field 𝓥 𝓜 𝓖} (home : ChunkCoord) (value : ℕ)
      → Inv f
      → size f.chunks < invalid_u32
      → Ensured f home value
  unfolding ensure_chunk
  ensure_chunk-Ensured {f} home value v room = elim (Option-cases (find f.index (key_of home))) [
    | inl absent ↦ grown-Ensured home value v room absent
    | inr (i, e) ↦ record {
      after = f;
      position = i;
      result = rw (find_chunk-find (key_of home) v, e);
      inv = v;
      found = e;
      others = λ key ne. refl;
      same_chunks = λ j h. refl;
      grows = omega arith;
      cells = λ key l h. elim (Option-cases (find f.index key)) [
        | inl none_here ↦ ground arith
        | inr (j, there) ↦ ground arith
      ];
    }
  ]
