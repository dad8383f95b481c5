-- ===== src/Scene/Tile/Filled.antt =====
-- What `TileField::resize` leaves: a chunk for every position, filled with one value.
use hyprie.Base.{
  ℕ, zero, suc, ◌+◌, ◌-◌, ◌*◌, ◌/◌, ◌≡◌, ◌<◌, ◌≤◌, some, refl, ap, ◌∙◌, arith, ◌==◌, ==_iff, inl,
  inr, Bool-cases, Option-cases, Vault, IndexMap, invalid_u32, max_i32, pos,
}
use hyprie.Scene.Field
use hyprie.Scene.Field.{ensure_chunk, clear, get}
use hyprie.Scene.Field.Inv.{Inv, cell, ensure_chunk-Ensured, clear-Inv}
use hyprie.Scene.FloorDiv.{floor_div}
use hyprie.Scene.Field.Located.{Located}
use hyprie.Scene.Field.Get.{get-cell}
use hyprie.Scene.Tile.{TileCoord, get_chunk_coord, get_chunk_coord_hash, tiles_per_chunk}
use hyprie.Scene.Tile.Field.{tile_grid, TileField, local_index-lt}
use hyprie.Scene.Tile.Resize.{chunk_at, resize_x, resize_z, resize_storeys, resize, chunk_count}

-- The hash of a position.
abbrev pub key_at : ℕ → ℕ → ℕ → ℕ
key_at storey z x = get_chunk_coord_hash (chunk_at storey z x)

abbrev pub tile_at : ℕ → ℕ → ℕ → TileCoord
tile_at i j k = record { x = pos i; z = pos j; storey_index = pos k; storey_stack = pos 0 }

chunk_of-tile_at :
    (i j k : ℕ) → get_chunk_coord (tile_at i j k) ≡ some (chunk_at k (j / 32) (i / 32))
unfolding get_chunk_coord floor_div
chunk_of-tile_at i j k = refl

abbrev locate_at : (i j k : ℕ) → Located tile_grid (tile_at i j k)
locate_at i j k =
    let (l, el, h) =
      local_index-lt (tile_at i j k) (chunk_at k (j / 32) (i / 32)) (chunk_of-tile_at i j k) in
    record {
      home = chunk_at k (j / 32) (i / 32);
      place = l;
      chunk = chunk_of-tile_at i j k;
      local = el;
      inside = h;
    }

module _ (𝓥 : Vault) (𝓜 : IndexMap) where
  open 𝓥 use {size}
  open 𝓜 use {find}

  -- The field has a chunk for the hash.
  abbrev pub Present : TileField 𝓥 𝓜 → ℕ → Type 0
  Present f key = (i : ℕ) × (find f.index key ≡ some i)

  -- Every cell of every chunk holds the value.
  pub record Uniform (f : TileField 𝓥 𝓜) (value : ℕ) : Type 0 where
    pub inv : Inv 𝓥 𝓜 tile_grid f
    pub cells :
        (key l : ℕ) → Present f key → l < tiles_per_chunk → cell 𝓥 𝓜 tile_grid f key l ≡ value

  -- A stage of the loops: it has made at most `n` chunks.
  pub record Grown (f f' : TileField 𝓥 𝓜) (value n : ℕ) : Type 0 where
    pub uniform : Uniform f' value
    pub keeps : (key : ℕ) → Present f key → Present f' key
    pub few : size f'.chunks ≤ size f.chunks + n

  ensure-Grown :
      {f : TileField 𝓥 𝓜} {value : ℕ} (storey z x : ℕ)
      → Uniform f value
      → size f.chunks < invalid_u32
      → (f' : TileField 𝓥 𝓜) × (i : ℕ) × (ensure_chunk 𝓥 𝓜 tile_grid f (chunk_at storey z x) value
          ≡ some (f', i))
        × Grown f f' value 1
        × Present f' (get_chunk_coord_hash (chunk_at storey z x))
  ensure-Grown {f} {value} storey z x u room =
      let home = chunk_at storey z x in
      let n = ensure_chunk-Ensured 𝓥 𝓜 tile_grid home value u.inv room in
      (
        n.after,
        n.position,
        n.result,
        record {
          uniform = record {
            inv = n.inv;
            cells = λ key l p h. elim (Option-cases (find f.index key)) [
              | inl absent ↦ elim (Bool-cases (key == get_chunk_coord_hash home)) [
                | inl same ↦ ground (arith, n.cells key l h)
                | inr other ↦ absurd (ground (arith, n.others key, p.1))
              ]
              | inr (i, e) ↦ ground (arith, n.cells key l h, u.cells key l (i, e) h)
            ];
          };
          keeps = λ key p. elim (Bool-cases (key == get_chunk_coord_hash home)) [
            | inl same ↦ (n.position, ground (arith, n.found))
            | inr other ↦ (p.0, ground (arith, n.others key, p.1))
          ];
          few = omega (arith, n.grows);
        },
        (n.position, n.found),
      )

  none-Grown : {f : TileField 𝓥 𝓜} {value : ℕ} → Uniform f value → Grown f f value 0
  none-Grown u = record { uniform = u; keeps = λ key p. p; few = omega arith }

  resize_x-Grown :
      (n : ℕ) {f : TileField 𝓥 𝓜} {value : ℕ} (storey z x : ℕ)
      → Uniform f value
      → size f.chunks + n ≤ invalid_u32
      → (f' : TileField 𝓥 𝓜) × (resize_x 𝓥 𝓜 f value storey z x n ≡ some f')
        × Grown f f' value n
        × ((i : ℕ) → x ≤ i → i < x + n → Present f' (key_at storey z i))
  unfolding resize_x
  resize_x-Grown zero {f} storey z x u room = (f, refl, none-Grown u, λ i h k. absurd (omega arith))
  resize_x-Grown (suc n) {f} storey z x u room =
      let (f', i', e', g', p') = ensure-Grown storey z x u (omega arith) in
      let (f'', e'', g'', p'') =
        resize_x-Grown n storey z (x + 1) g'.uniform (omega (arith, g'.few)) in
      (
        f'',
        rw e' e'',
        record {
          uniform = g''.uniform;
          keeps = λ key p. g''.keeps key (g'.keeps key p);
          few = omega (arith, g'.few, g''.few);
        },
        λ i h k. elim (Bool-cases (i == x)) [
          | inl same ↦ g''.keeps _ (rw ((==_iff i x).0 same) p')
          | inr other ↦ p'' i (ground arith) (ground arith)
        ],
      )

  resize_z-Grown :
      (n : ℕ) {f : TileField 𝓥 𝓜} {value : ℕ} (storey count_x z : ℕ)
      → Uniform f value
      → size f.chunks + n * count_x ≤ invalid_u32
      → (f' : TileField 𝓥 𝓜) × (resize_z 𝓥 𝓜 f value storey count_x z n ≡ some f')
        × Grown f f' value (n * count_x)
        × ((i j : ℕ) → i < count_x → z ≤ j → j < z + n → Present f' (key_at storey j i))
  unfolding resize_z
  resize_z-Grown zero {f} {value} storey count_x z u room = (
    f,
    refl,
    record { uniform = u; keeps = λ key p. p; few = omega arith },
    λ i j h k l. absurd (omega arith),
  )
  resize_z-Grown (suc n) {f} {value} storey count_x z u room =
      let (f', e', g', p') = resize_x-Grown count_x storey z 0 u (omega arith) in
      let (f'', e'', g'', p'') =
        resize_z-Grown n storey count_x (z + 1) g'.uniform (omega (arith, g'.few)) in
      (
        f'',
        rw e' e'',
        record {
          uniform = g''.uniform;
          keeps = λ key p. g''.keeps key (g'.keeps key p);
          few = omega (arith, g'.few, g''.few);
        },
        λ i j h k l. elim (Bool-cases (j == z)) [
          | inl same ↦ g''.keeps _ (rw ((==_iff j z).0 same) (p' i (omega arith) (omega arith)))
          | inr other ↦ p'' i j h (ground arith) (ground arith)
        ],
      )

  pub resize_storeys-Grown :
      (n : ℕ) {f : TileField 𝓥 𝓜} {value : ℕ} (count_x count_z storey : ℕ)
      → Uniform f value
      → size f.chunks + n * (count_z * count_x) ≤ invalid_u32
      → (f' : TileField 𝓥 𝓜) × (resize_storeys 𝓥 𝓜 f value count_x count_z storey n ≡ some f')
        × Uniform f' value
        × ((key : ℕ) → Present f key → Present f' key)
        × ((i j s : ℕ)
            → i < count_x
            → j < count_z
            → storey ≤ s
            → s < storey + n
            → Present f' (key_at s j i))
  unfolding resize_storeys
  resize_storeys-Grown zero {f} {value} count_x count_z storey u room =
      (f, refl, u, (λ key p. p), λ i j s h k l m. absurd (omega arith))
  resize_storeys-Grown (suc n) {f} {value} count_x count_z storey u room =
      let (f', e', g', p') = resize_z-Grown count_z storey count_x 0 u (omega arith) in
      let (f'', e'', u'', keeps, p'') =
        resize_storeys-Grown n count_x count_z (storey + 1) g'.uniform (omega (arith, g'.few)) in
      (
        f'',
        rw e' e'',
        u'',
        (λ key p. keeps key (g'.keeps key p)),
        λ i j s h k l m. elim (Bool-cases (s == storey)) [
          | inl same ↦
              keeps _ (rw ((==_iff s storey).0 same) (p' i j h (omega arith) (omega arith)))
          | inr other ↦ p'' i j s h k (ground arith) (ground arith)
        ],
      )

  clear-Uniform : {value : ℕ} → Uniform (clear 𝓥 𝓜 tile_grid) value
  clear-Uniform = record {
    inv = clear-Inv 𝓥 𝓜 tile_grid;
    cells = λ key l p h. absurd (ground (arith, 𝓜.find_empty_map key, p.1));
  }

  resize-Uniform :
      (w h s value : ℕ)
      → 0 < w
      → 0 < h
      → 0 < s
      → w + 32 ≤ max_i32
      → h + 32 ≤ max_i32
      → s * ((h + 32 - 1) / 32 * ((w + 32 - 1) / 32)) ≤ invalid_u32
      → (f' : TileField 𝓥 𝓜) × (resize 𝓥 𝓜 (pos w) (pos h) (pos s) value ≡ some f')
        × Uniform f' value
        × ((i j k : ℕ)
            → i < (w + 32 - 1) / 32
            → j < (h + 32 - 1) / 32
            → k < s
            → Present f' (key_at k j i))
  unfolding resize chunk_count
  resize-Uniform zero h s value pw ph ps rw_ rh few = elim pw [ ]
  resize-Uniform (suc w) zero s value pw ph ps rw_ rh few = elim ph [ ]
  resize-Uniform (suc w) (suc h) zero value pw ph ps rw_ rh few = elim ps [ ]
  resize-Uniform (suc w) (suc h) (suc s) value pw ph ps rw_ rh few =
      let (f', e, u, _, p) =
        resize_storeys-Grown (suc s) ((suc w + 32 - 1) / 32) ((suc h + 32 - 1) / 32) 0
          (clear-Uniform {value = value})
          (omega (arith, 𝓥.size_empty {A = Field.Chunk 𝓥 𝓜 tile_grid})) in
      (f', ground (arith, e), u, λ i j k hi hj hk. p i j k hi hj (omega arith) (omega arith))

  -- For positive sizes whose chunk counts do not overflow `int32_t` and make at most 0xFFFFFFFF
  -- chunks, `resize` succeeds, whatever the hashes of the chunks are, and every tile of the
  -- rectangle reads the fill value on every storey.
  pub resize-fills :
      (w h s value : ℕ)
      → 0 < w
      → 0 < h
      → 0 < s
      → w + 32 ≤ max_i32
      → h + 32 ≤ max_i32
      → s * ((h + 32 - 1) / 32 * ((w + 32 - 1) / 32)) ≤ invalid_u32
      → (f' : TileField 𝓥 𝓜) × (resize 𝓥 𝓜 (pos w) (pos h) (pos s) value ≡ some f')
        × ((i j k : ℕ) → i < w → j < h → k < s → get 𝓥 𝓜 tile_grid f' (tile_at i j k) ≡ some value)
  resize-fills w h s value pw ph ps rw_ rh few =
      let (f', e, u, p) = resize-Uniform w h s value pw ph ps rw_ rh few in
      (
        f',
        e,
        λ i j k hi hj hk.
            get-cell 𝓥 𝓜 tile_grid (tile_at i j k) (locate_at i j k) u.inv
            ∙ ap some (
                u.cells (key_at k (j / 32) (i / 32)) (locate_at i j k).place
                  (p (i / 32) (j / 32) k (omega (arith)) (omega (arith)) hk)
                  (locate_at i j k).inside),
      )
