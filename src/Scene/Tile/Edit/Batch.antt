-- ===== src/Scene/Tile/Edit/Batch.antt =====
-- Whole batches of edits.
use hyprie.Base.{
  ℕ, zero, suc, ◌+◌, ◌≡◌, ◌<◌, ◌≤◌, false, ◌&&◌, ◌==◌, Option, some, refl, ◌∙◌, arith, inl, inr,
  Bool-cases, Vault, IndexMap, List, [], ◌∷◌, length,
}
use hyprie.Scene.Field.Inv.{Inv, cell}
use hyprie.Scene.Field.Located.{Located}
use hyprie.Scene.Tile.{TileCoord, tiles_per_chunk}
use hyprie.Scene.Tile.Field.{tile_grid, TileField}
use hyprie.Scene.Tile.Edit.{TileEdit, TileEditBatch, apply_from, apply}
use hyprie.Scene.Tile.Edit.Step.{apply_edit-Applied, hits, key_of}

module _ (𝓥 : Vault) (𝓜 : IndexMap) {S : Type 0} (mark_dirty : TileCoord → S → S) where
  open 𝓥 use {size, at, at_in}

  -- The calls of the callback.
  abbrev pub marks : S → List TileCoord → S
  marks s [] = s
  marks s (c ∷ cs) = marks (mark_dirty c s) cs

  -- Every edit has a chunk coordinate.
  abbrev pub AllLocated : TileEditBatch 𝓥 → Type 0
  AllLocated b = (i : ℕ) (edit : TileEdit) → at b.edits i ≡ some edit → Located tile_grid edit.coord

  -- No edit of the batch is at the place.
  abbrev pub Untouched : (b : TileEditBatch 𝓥) → AllLocated b → ℕ → ℕ → Type 0
  Untouched b located key l =
      (i : ℕ) (edit : TileEdit) (e : at b.edits i ≡ some edit)
      → (key_of 𝓥 𝓜 mark_dirty (located i edit e) == key) && ((located i edit e).place == l) ≡ false

  -- What a part of a batch does.
  pub record Ran (b : TileEditBatch 𝓥) (located : AllLocated b) (f : TileField 𝓥 𝓜) (s : S)
      (applied n : ℕ) (out : Option (TileField 𝓥 𝓜 × S × ℕ)) : Type 0 where
    pub after : TileField 𝓥 𝓜
    pub marked : List TileCoord
    pub result : out ≡ some (after, marks s marked, applied + length marked)
    pub few : length marked ≤ n
    pub inv : Inv 𝓥 𝓜 tile_grid after
    pub untouched :
        (key l : ℕ)
        → l < tiles_per_chunk
        → Untouched b located key l
        → cell 𝓥 𝓜 tile_grid after key l ≡ cell 𝓥 𝓜 tile_grid f key l

  apply_from-Ran :
      (b : TileEditBatch 𝓥) (located : AllLocated b) (n : ℕ) {f : TileField 𝓥 𝓜} (s : S)
      (applied i : ℕ)
      → Inv 𝓥 𝓜 tile_grid f
      → i + n ≡ size b.edits
      → applied + n < 4294967296
      → Ran b located f s applied n (apply_from 𝓥 𝓜 mark_dirty b f s applied i n)
  unfolding apply_from
  apply_from-Ran b located zero {f} s applied i v h room = record {
    after = f;
    marked = [];
    result = ground arith;
    few = omega arith;
    inv = v;
    untouched = λ key l lt un. refl;
  }
  apply_from-Ran b located (suc n) {f} s applied i v h room =
      let (edit, e) = at_in b.edits i (omega arith) in
      let p = located i edit e in
      let q = apply_edit-Applied 𝓥 𝓜 mark_dirty s applied edit p v in
      elim (Bool-cases (hits 𝓥 𝓜 mark_dirty f edit p)) [
        | inl hit ↦
            let r =
              apply_from-Ran b located n (mark_dirty edit.coord s) (applied + 1) (i + 1) q.inv
                (omega arith) (omega arith) in
            record {
              after = r.after;
              marked = edit.coord ∷ r.marked;
              result = ground (arith, e, q.result, r.result);
              few = omega (arith, r.few);
              inv = r.inv;
              untouched = λ key l lt un.
                  ground (arith, r.untouched key l lt un, q.cells key l lt, un i edit e);
            }
        | inr miss ↦
            let r =
              apply_from-Ran b located n s applied (i + 1) q.inv (omega arith) (omega arith) in
            record {
              after = r.after;
              marked = r.marked;
              result = ground (arith, e, q.result, r.result);
              few = omega (arith, r.few);
              inv = r.inv;
              untouched = λ key l lt un. r.untouched key l lt un ∙ ground (arith, q.cells key l lt);
            }
      ]

  -- `apply` of fewer than 2^32 edits whose tiles have chunk coordinates never faults and keeps the
  -- invariant. Its result is the number of calls of `mark_dirty`, at most the number of edits, and
  -- no tile changes at whose place there is no edit.
  pub apply-Ran :
      (b : TileEditBatch 𝓥) (located : AllLocated b) {f : TileField 𝓥 𝓜} (s : S)
      → Inv 𝓥 𝓜 tile_grid f
      → size b.edits < 4294967296
      → Ran b located f s 0 (size b.edits) (apply 𝓥 𝓜 mark_dirty b f s)
  unfolding apply
  apply-Ran b located s v room =
      apply_from-Ran b located (size b.edits) s 0 0 v (omega arith) (omega arith)
