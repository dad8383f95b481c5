-- ===== src/Scene/Grids.antt =====
-- What the two grids share: the place of a coordinate in its chunk, and the FNV-1a hash of words.
use hyprie.Base.{
  ℕ, ◌+◌, ◌-◌, ◌*◌, ◌≡◌, ◌<◌, ◌≤◌, Option, none, some, ltb, ◌>>◌, guard, arith, u64, bit_xor, ℤ,
  pos, negsuc, pos_part, neg_part, ◌-ℤ◌, times,
}
use hyprie.Scene.FloorDiv.{floor_div, floor_div-floor}

abbrev pub chunk_size : ℕ
chunk_size = 32

-- `x - chunk * chunk_size`, with the assertion that it lies in the chunk.
unfoldable pub local_coord : ℤ → ℤ → Option ℕ
local_coord x chunk = elim (x -ℤ times chunk chunk_size) [
  | pos l ↦ guard (ltb l chunk_size) >> some l
  | negsuc n ↦ none
]

-- `fnv1a ^= word; fnv1a *= prime;`
unfoldable pub fnv1a_step : ℕ → ℕ → ℕ
fnv1a_step hash word = u64 (bit_xor hash word * 1099511628211)

abbrev pub fnv1a_basis : ℕ
fnv1a_basis = 14695981039346656037

-- The chunk of a coordinate and its place there give the coordinate back.
pub record Split (x chunk : ℤ) : Type 0 where
  pub place : ℕ
  pub result : local_coord x chunk ≡ some place
  pub inside : place < chunk_size
  pub back : pos_part x + neg_part chunk * 32 ≡ pos_part chunk * 32 + place + neg_part x

local_coord-eq :
    (x chunk : ℤ)
    → pos_part chunk * 32 + neg_part x ≤ pos_part x + neg_part chunk * 32
    → pos_part x + neg_part chunk * 32 < pos_part chunk * 32 + neg_part x + 32
    → local_coord x chunk
      ≡ some (pos_part x + neg_part chunk * 32 - (pos_part chunk * 32 + neg_part x))
unfolding local_coord ◌-ℤ◌
local_coord-eq x chunk h k = ground arith

eq_of_parts : (x y : ℤ) → pos_part x + neg_part y ≡ pos_part y + neg_part x → x ≡ y
eq_of_parts x y h = ground arith

pub floor_div-Split : (x chunk : ℤ) → floor_div x chunk_size ≡ some chunk → Split x chunk
floor_div-Split x chunk e = record {
  place = pos_part x + neg_part chunk * 32 - (pos_part chunk * 32 + neg_part x);
  result = local_coord-eq x chunk (floor_div-floor x 32 e).0 (floor_div-floor x 32 e).1;
  inside = omega (arith, floor_div-floor x 32 e);
  back = omega (arith, floor_div-floor x 32 e);
}

pub Split-injective :
    {x y chunk : ℤ} (a : Split x chunk) (b : Split y chunk) → a.place ≡ b.place → x ≡ y
Split-injective {x} {y} {chunk} a b e = eq_of_parts x y (omega (arith, a.back, b.back))
