-- ===== src/Tests/Stream.antt =====
-- A command stream of 64 bytes.
use hyprie.Base.{ℕ, ◌+◌, ◌≡◌, ◌<◌, ◌≤◌, ◌⊎◌, some, true, false, refl, arith, [], ◌∷◌}
use hyprie.Event.CommandStream.{
  Memory, CmdStream, Reader, set_storage, push, begin, aligned_size, align,
}
use hyprie.Event.CommandStream.RoundTrip.{
  Contains, Yields, holds_none, push_fits, push-Contains, begin-Yields,
}

abbrev storage : Memory
storage a = 0

abbrev block : CmdStream
block = set_storage storage 64

block-Contains : Contains block []
block-Contains = record {
  memory = storage;
  bytes = refl;
  holds = holds_none 0;
  even = refl;
  fits = omega arith;
}

push-Contains_example :
    ((64 < 0 + aligned_size (5 ∷ 6 ∷ 7 ∷ [])) × (push block 2 (5 ∷ 6 ∷ 7 ∷ []) ≡ (block, false)))
    ⊎ ((0 + aligned_size (5 ∷ 6 ∷ 7 ∷ []) ≤ 64)
        × (s' : CmdStream) × (push block 2 (5 ∷ 6 ∷ 7 ∷ []) ≡ (s', true))
        × (v' : Contains s' (record { type = 2; payload = 5 ∷ 6 ∷ 7 ∷ [] } ∷ [])) × ((a : ℕ)
            → 64 ≤ a
            → v'.memory a ≡ block-Contains.memory a))
push-Contains_example = push-Contains 2 (5 ∷ 6 ∷ 7 ∷ []) block-Contains (omega arith) (omega arith)

filled :
    (s' : CmdStream) × (push block 2 (5 ∷ 6 ∷ 7 ∷ []) ≡ (s', true))
    × (v' : Contains s' (record { type = 2; payload = 5 ∷ 6 ∷ 7 ∷ [] } ∷ [])) × ((a : ℕ)
        → 64 ≤ a
        → v'.memory a ≡ block-Contains.memory a)
unfolding align
filled = push_fits 2 (5 ∷ 6 ∷ 7 ∷ []) block-Contains (omega arith) (omega arith) (omega arith)

begin-Yields_example :
    (r : Reader) × (begin filled.0 ≡ some r)
    × Yields filled.2.memory r (record { type = 2; payload = 5 ∷ 6 ∷ 7 ∷ [] } ∷ [])
begin-Yields_example = begin-Yields filled.2
