-- ===== src/Procgen/MeshKeys.antt =====
-- The part of `TlasBuilder::build` of hpr/procgen/bvh_tlas.cpp that orders the keys of the meshes.
pub mod Buckets
pub mod Step
pub mod Ordered
use hyprie.Base.{ℕ, zero, suc, ◌+◌, ◌-◌, ◌/◌, Bool, true, false, ltb, if◌then◌else◌, u32}
use hyprie.Procgen.RadixSort.{SortMeshKey, store_at, count_keys, scatter_keys, radix_sort_bucket}

abbrev pub morton_bucket_cnt : ℕ
morton_bucket_cnt = 512

-- `morton_code >> morton_bucket_shift`.
abbrev pub bucket : SortMeshKey → ℕ
bucket key = key.morton_code / 2097152

-- `bucket_start_idxs`, for `n` buckets from bucket `i` on, where the prefix sum is `sum`.
unfoldable pub sum_buckets : (ℕ → ℕ) → (ℕ → ℕ) → ℕ → ℕ → ℕ → ℕ → ℕ
sum_buckets cnts starts sum i zero = starts
sum_buckets cnts starts sum i (suc n) =
    sum_buckets cnts (store_at starts i sum) (u32 (sum + cnts i)) (i + 1) n

-- What is left of an array after a call that got a pointer to its element `start`.
unfoldable pub write_from : ℕ → (ℕ → SortMeshKey) → (ℕ → SortMeshKey) → ℕ → SortMeshKey
write_from start keys sub p = if ltb p start then keys p else sub (p - start)

-- The two buffers, and what the arrays of offsets hold before they are written in the call for a bucket.
pub record Buffers : Type 0 where
  pub sorted_mesh_keys : ℕ → SortMeshKey
  pub temp_mesh_keys : ℕ → SortMeshKey

module _ (garbage_lower garbage_upper : ℕ → ℕ → ℕ) where
  unfoldable pub sort_bucket : (ℕ → ℕ) → (ℕ → ℕ) → ℕ → Buffers → Buffers
  sort_bucket cnts starts i buffers =
      if ltb 1 (cnts i)
      then (let start = starts i in
          let result =
            radix_sort_bucket (garbage_lower i) (garbage_upper i)
              (λ p. buffers.sorted_mesh_keys (start + p)) (λ p. buffers.temp_mesh_keys (start + p))
              (cnts i) in
          record {
            sorted_mesh_keys = write_from start buffers.sorted_mesh_keys result.0;
            temp_mesh_keys = write_from start buffers.temp_mesh_keys result.1;
          })
      else buffers

  -- The calls for `n` buckets from bucket `i` on.
  unfoldable pub sort_buckets : (ℕ → ℕ) → (ℕ → ℕ) → ℕ → ℕ → Buffers → Buffers
  sort_buckets cnts starts i zero buffers = buffers
  sort_buckets cnts starts i (suc n) buffers =
      sort_buckets cnts starts (i + 1) n (sort_bucket cnts starts i buffers)

  -- From `m_raw_mesh_keys` to `m_sorted_mesh_keys`, with the buffers as they are after their resize.
  unfoldable pub sort_mesh_keys : (ℕ → SortMeshKey) → Buffers → ℕ → ℕ → SortMeshKey
  sort_mesh_keys raw_mesh_keys buffers mesh_cnt =
      let bucket_mesh_cnts = count_keys bucket raw_mesh_keys (λ b. 0) 0 mesh_cnt in
      let bucket_start_idxs = sum_buckets bucket_mesh_cnts (λ b. 0) 0 0 morton_bucket_cnt in
      let scattered =
        scatter_keys bucket raw_mesh_keys buffers.sorted_mesh_keys bucket_start_idxs 0 mesh_cnt in
      (sort_buckets bucket_mesh_cnts bucket_start_idxs 0 morton_bucket_cnt record {
        sorted_mesh_keys = scattered;
        temp_mesh_keys = buffers.temp_mesh_keys;
      }).sorted_mesh_keys
