-- ===== src/Scene/FloorDiv.antt =====
-- `math::floor_div` of hpr/core/math.hpp, and its twin in hpr/scene/voxel_field.hpp.
use hyprie.Base.{
  ℕ, ◌+◌, ◌-◌, ◌*◌, ◌/◌, ◌≡◌, ◌↔◌, ◌⊎◌, inl, inr, refl, ◌<◌, ◌≤◌, Option, none, some, ltb, leb,
  ◌==◌, if◌then◌else◌, ◌>>=◌, ◌>>◌, guard, arith, ℤ, pos, negsuc, pos_part, neg_part, max_i32,
}
use native.Mathlib.Nat.{div-add-mod', mod-lt}

-- A non-negative `int32_t` result: `none` is a signed overflow, which is undefined in C++.
unfoldable pub i32 : ℕ → Option ℕ
i32 n = if leb n max_i32 then some n else none

-- -n
abbrev pub negate : ℕ → ℤ
negate n = if n == 0 then pos 0 else negsuc (n - 1)

unfoldable pub floor_div : ℤ → ℕ → Option ℤ
floor_div (pos n) d = do guard (ltb 0 d); some (pos (n / d))
floor_div (negsuc m) d = do
  guard (ltb 0 d)
  a ← i32 (m + 1)
  b ← i32 (a + d)
  some (negate ((b - 1) / d))

-- `floor_div` rounds down: its result `q` is the one with `q * d ≤ value < q * d + d`.
pub floor_div-floor :
    (value : ℤ) (d : ℕ) {q : ℤ}
    → floor_div value d ≡ some q
    → (pos_part q * d + neg_part value ≤ pos_part value + neg_part q * d)
      × (pos_part value + neg_part q * d < pos_part q * d + neg_part value + d)
unfolding floor_div i32
floor_div-floor (pos n) d {q} e = ground (arith, div-add-mod' n d, mod-lt n {m = d} (ground arith))
floor_div-floor (negsuc m) d {q} e =
    ground (arith, div-add-mod' (m + 1 + d - 1) d, mod-lt (m + 1 + d - 1) {m = d} (ground arith))

-- For a positive divisor `floor_div` is defined exactly where the magnitude of a negative value and
-- the divisor add up within `int32_t`.
pub floor_div-defined :
    (value : ℤ) (d : ℕ)
    → 0 < d
    → ((q : ℤ) × (floor_div value d ≡ some q)) ↔ (neg_part value ≡ 0 ⊎ neg_part value + d ≤ max_i32)
unfolding floor_div i32
floor_div-defined (pos n) d h = (λ p. inl refl, λ q. (pos (n / d), ground arith))
floor_div-defined (negsuc m) d h =
    (λ p. inr (ground (arith, p.1)), λ q. (negate ((m + 1 + d - 1) / d), ground arith))
