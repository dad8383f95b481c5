-- ===== src/Procgen/MortonCode.antt =====
-- `TlasBuilder::compute_morton_code` of hpr/procgen/bvh_tlas.cpp, from the coordinates on the grid on.
pub mod Interleaved
use hyprie.Base.{ℕ, ◌*◌, bit_and, bit_or, u32}

-- The lambda `expand_bits`; a shift of a `uint32_t` drops what leaves its 32 digits.
unfoldable pub expand_bits : ℕ → ℕ
expand_bits value =
    let value_16 = bit_and (bit_or value (u32 (value * 65536))) 0x030000FF in
    let value_8 = bit_and (bit_or value_16 (u32 (value_16 * 256))) 0x0300F00F in
    let value_4 = bit_and (bit_or value_8 (u32 (value_8 * 16))) 0x030C30C3 in
    bit_and (bit_or value_4 (u32 (value_4 * 4))) 0x09249249

unfoldable pub compute_morton_code : ℕ → ℕ → ℕ → ℕ
compute_morton_code x_grid y_grid z_grid =
    bit_or (bit_or (expand_bits x_grid) (u32 (expand_bits y_grid * 2)))
      (u32 (expand_bits z_grid * 4))
