-- ===== src/Procgen/RadixSort.antt =====
-- `TlasBuilder::radix_sort_bucket` of hpr/procgen/bvh_tlas.cpp: two passes of a counting sort.
pub mod Counts
pub mod Pass
pub mod Sorted
use hyprie.Base.{
  ℕ, zero, suc, ◌+◌, ◌-◌, ◌/◌, Bool, true, false, ◌==◌, leb, if◌then◌else◌, u32, bit_and,
}

pub record SortMeshKey : Type 0 where
  pub morton_code : ℕ
  pub mesh_idx : ℕ

-- An array that is reached through a pointer, and a write to it.
abbrev pub store_at {ℓ} : {A : Type ℓ} → (ℕ → A) → ℕ → A → ℕ → A
store_at f i a j = if i == j then a else f j

abbrev pub radix_bin_cap_lower : ℕ
radix_bin_cap_lower = 2048

abbrev pub radix_bin_cap_upper : ℕ
radix_bin_cap_upper = 1024

abbrev pub bin_lower : SortMeshKey → ℕ
bin_lower key = bit_and key.morton_code 0x7FF

abbrev pub bin_upper : SortMeshKey → ℕ
bin_upper key = bit_and (key.morton_code / 2048) 0x3FF

module _ (bin : SortMeshKey → ℕ) where
  -- `++histogram_key_cnt[bin_idx]`, for `n` keys from index `i` on.
  unfoldable pub count_keys : (ℕ → SortMeshKey) → (ℕ → ℕ) → ℕ → ℕ → ℕ → ℕ
  count_keys keys histogram i zero = histogram
  count_keys keys histogram i (suc n) =
      count_keys keys (store_at histogram (bin (keys i)) (u32 (histogram (bin (keys i)) + 1)))
        (i + 1) n

  -- `temp_keys[bin_offsets[bin_idx]++] = keys[i]`, for `n` keys from index `i` on.
  unfoldable pub scatter_keys :
      (ℕ → SortMeshKey) → (ℕ → SortMeshKey) → (ℕ → ℕ) → ℕ → ℕ → ℕ → SortMeshKey
  scatter_keys keys out offsets i zero = out
  scatter_keys keys out offsets i (suc n) =
      scatter_keys keys (store_at out (offsets (bin (keys i))) (keys i))
        (store_at offsets (bin (keys i)) (u32 (offsets (bin (keys i)) + 1))) (i + 1) n

-- `bin_offsets[i] = bin_offsets[i - 1] + histogram_key_cnt[i - 1]`, for `n` bins from bin `i` on.
unfoldable pub sum_bins : (ℕ → ℕ) → (ℕ → ℕ) → ℕ → ℕ → ℕ → ℕ
sum_bins histogram offsets i zero = offsets
sum_bins histogram offsets i (suc n) =
    sum_bins histogram (store_at offsets i (u32 (offsets (i - 1) + histogram (i - 1)))) (i + 1) n

-- One of the two blocks; before it is written, an element of `bin_offsets` has any value.
unfoldable pub pass :
    (SortMeshKey → ℕ) → ℕ → (ℕ → ℕ) → (ℕ → SortMeshKey) → (ℕ → SortMeshKey) → ℕ → ℕ → SortMeshKey
pass bin bin_cap garbage keys out keys_cnt =
    let histogram = count_keys bin keys (λ b. 0) 0 keys_cnt in
    let bin_offsets = sum_bins histogram (store_at garbage 0 0) 1 (bin_cap - 1) in
    scatter_keys bin keys out bin_offsets 0 keys_cnt

-- What is left in `keys`, and in `temp_keys`; the arrays of offsets of the two blocks are two arrays.
unfoldable pub radix_sort_bucket :
    (ℕ → ℕ)
    → (ℕ → ℕ)
    → (ℕ → SortMeshKey)
    → (ℕ → SortMeshKey)
    → ℕ
    → (ℕ → SortMeshKey) × (ℕ → SortMeshKey)
radix_sort_bucket garbage_lower garbage_upper keys temp_keys keys_cnt =
    if leb keys_cnt 1
    then (keys, temp_keys)
    else let sorted_lower =
        pass bin_lower radix_bin_cap_lower garbage_lower keys temp_keys keys_cnt in
      (pass bin_upper radix_bin_cap_upper garbage_upper sorted_lower keys keys_cnt, sorted_lower)
