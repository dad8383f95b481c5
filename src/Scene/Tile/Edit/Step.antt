-- ===== src/Scene/Tile/Edit/Step.antt =====
-- One edit of a batch.
use hyprie.Base.{
  ℕ, ◌+◌, ◌≡◌, ◌<◌, Bool, true, false, not, ◌&&◌, ◌==◌, if◌then◌else◌, Option, none, some, refl,
  arith, inl, inr, Option-cases, Bool-cases, Vault, IndexMap, u32,
}
use hyprie.Scene.Field.{poke}
use hyprie.Scene.Field.Inv.{Inv, cell}
use hyprie.Scene.Field.Located.{Located}
use hyprie.Scene.Field.Get.{get_ptr-find}
use hyprie.Scene.Field.Set.{poke-Poked}
use hyprie.Scene.Tile.{TileCoord, get_chunk_coord_hash, tiles_per_chunk}
use hyprie.Scene.Tile.Field.{tile_grid, TileField}
use hyprie.Scene.Tile.Edit.{TileEdit, apply_at, apply_edit}

module _ (𝓥 : Vault) (𝓜 : IndexMap) {S : Type 0} (mark_dirty : TileCoord → S → S) where
  open 𝓥 use {size, at, at_in}
  open 𝓜 use {find}

  abbrev pub key_of : {c : TileCoord} → Located tile_grid c → ℕ
  key_of p = get_chunk_coord_hash p.home

  abbrev has_chunk : Option ℕ → Bool
  has_chunk none = false
  has_chunk (some i) = true

  -- The edit takes effect: its tile has a chunk, holds the recorded value, and changes.
  abbrev pub hits : TileField 𝓥 𝓜 → (edit : TileEdit) → Located tile_grid edit.coord → Bool
  hits f edit p =
      has_chunk (find f.index (key_of p))
      && (cell 𝓥 𝓜 tile_grid f (key_of p) p.place == edit.before)
      && not (edit.before == edit.after)

  -- What one edit does.
  pub record Applied (f : TileField 𝓥 𝓜) (s : S) (applied : ℕ) (edit : TileEdit)
      (p : Located tile_grid edit.coord) (out : Option (TileField 𝓥 𝓜 × S × ℕ)) : Type 0 where
    pub after : TileField 𝓥 𝓜
    pub result : out ≡ (
        if hits f edit p
        then some (after, mark_dirty edit.coord s, u32 (applied + 1))
        else some (after, s, applied))
    pub inv : Inv 𝓥 𝓜 tile_grid after
    pub same_index : (key : ℕ) → find after.index key ≡ find f.index key
    pub cells :
        (key l : ℕ)
        → l < tiles_per_chunk
        → cell 𝓥 𝓜 tile_grid after key l ≡ (
            if hits f edit p && (key_of p == key) && (p.place == l)
            then edit.after
            else cell 𝓥 𝓜 tile_grid f key l)

  miss-Applied :
      {f : TileField 𝓥 𝓜} {edit : TileEdit} {out : Option (TileField 𝓥 𝓜 × S × ℕ)} (s : S)
      (applied : ℕ) (p : Located tile_grid edit.coord)
      → Inv 𝓥 𝓜 tile_grid f
      → hits f edit p ≡ false
      → out ≡ some (f, s, applied)
      → Applied f s applied edit p out
  miss-Applied s applied p v m e = record {
    after = _;
    result = ground (arith, e);
    inv = v;
    same_index = λ key. refl;
    cells = λ key l h. ground arith;
  }

  poke-index :
      (f : TileField 𝓥 𝓜) (i l value : ℕ) {f' : TileField 𝓥 𝓜}
      → poke 𝓥 𝓜 tile_grid f i l value ≡ some f'
      → (key : ℕ) → find f'.index key ≡ find f.index key
  unfolding poke
  poke-index f i l value e key = ground arith

  -- An edit whose tile has a chunk coordinate never faults and keeps the invariant. If the tile
  -- has a chunk and holds the recorded value, and the edit changes it, the edit writes that tile
  -- and no other, marks it and is counted; else it does nothing.
  pub apply_edit-Applied :
      {f : TileField 𝓥 𝓜} (s : S) (applied : ℕ) (edit : TileEdit) (p : Located tile_grid edit.coord)
      → Inv 𝓥 𝓜 tile_grid f
      → Applied f s applied edit p (apply_edit 𝓥 𝓜 mark_dirty f s applied edit)
  unfolding apply_edit apply_at
  apply_edit-Applied {f} s applied edit p v = elim (Option-cases (find f.index (key_of p))) [
    | inl absent ↦
        miss-Applied s applied p v (ground arith)
          (ground (arith, get_ptr-find 𝓥 𝓜 tile_grid edit.coord p v))
    | inr (i, e) ↦
        let h = v.indexed (key_of p) i e in
        let (current, ec) = at_in h.chunk.cells p.place (rw h.full p.inside) in
        elim (Bool-cases (hits f edit p)) [
          | inr miss ↦
              miss-Applied s applied p v miss
                (ground (arith, get_ptr-find 𝓥 𝓜 tile_grid edit.coord p v, h.here, ec))
          | inl hit ↦
              let q = poke-Poked 𝓥 𝓜 tile_grid v (key_of p) i p.place edit.after e p.inside h in
              record {
                after = q.after;
                result =
                    ground (arith, get_ptr-find 𝓥 𝓜 tile_grid edit.coord p v, h.here, ec, q.result);
                inv = q.inv;
                same_index = poke-index f i p.place edit.after q.result;
                cells = λ key l lt. ground (arith, q.update key l lt);
              }
        ]
  ]

  -- The edit that takes another one back.
  abbrev pub inverse : TileEdit → TileEdit
  inverse edit = record { coord = edit.coord; before = edit.after; after = edit.before }

  -- After an edit that took effect its inverse takes effect, and leaves every tile as it was.
  pub apply_edit-inverse :
      {f : TileField 𝓥 𝓜} (s : S) (applied : ℕ) (edit : TileEdit) (p : Located tile_grid edit.coord)
      → Inv 𝓥 𝓜 tile_grid f
      → hits f edit p ≡ true
      → (f' f'' : TileField 𝓥 𝓜) × (apply_edit 𝓥 𝓜 mark_dirty f s applied edit
          ≡ some (f', mark_dirty edit.coord s, u32 (applied + 1)))
        × (apply_edit 𝓥 𝓜 mark_dirty f' s applied (inverse edit)
            ≡ some (f'', mark_dirty edit.coord s, u32 (applied + 1)))
        × ((key l : ℕ)
            → l < tiles_per_chunk
            → cell 𝓥 𝓜 tile_grid f'' key l ≡ cell 𝓥 𝓜 tile_grid f key l)
  apply_edit-inverse {f} s applied edit p v hit =
      let q = apply_edit-Applied s applied edit p v in
      let r = apply_edit-Applied s applied (inverse edit) p q.inv in
      let back : hits q.after (inverse edit) p ≡ true =
        ground (arith, q.same_index (key_of p), q.cells (key_of p) p.place p.inside) in
      (
        q.after,
        r.after,
        ground (arith, q.result),
        ground (arith, r.result),
        λ key l lt. ground (arith, q.cells key l lt, r.cells key l lt),
      )
