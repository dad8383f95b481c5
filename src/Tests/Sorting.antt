-- ===== src/Tests/Sorting.antt =====
-- Sorts of a few keys.
use hyprie.Base.{refl, ◌/◌, ◌≡◌, ℕ, ◌<◌, ◌==◌, if◌then◌else◌, arith}
use hyprie.Procgen.RadixSort.{SortMeshKey, radix_sort_bucket}
use hyprie.Procgen.RadixSort.Pass.{Passed}
use hyprie.Procgen.RadixSort.Sorted.{low_code, radix_sort_bucket-Passed}
use hyprie.Procgen.MortonCode.{expand_bits, compute_morton_code}
use hyprie.Procgen.MortonCode.Interleaved.{gather, compute_morton_code-gather}
use hyprie.Procgen.MeshKeys.{Buffers, sort_mesh_keys}
use hyprie.Procgen.MeshKeys.Ordered.{sort_mesh_keys-Passed}

-- Mesh 0 is in the third bucket, the others are in the first one.
abbrev three_keys : ℕ → SortMeshKey
three_keys i =
    if i == 0
    then record { morton_code = 4194309; mesh_idx = 0 }
    else if i == 1
    then record { morton_code = 2049; mesh_idx = 1 }
    else record { morton_code = 7; mesh_idx = i }

abbrev no_keys : ℕ → SortMeshKey
no_keys i = record { morton_code = 0; mesh_idx = 0 }

abbrev no_buffers : Buffers
no_buffers = record { sorted_mesh_keys = no_keys; temp_mesh_keys = no_keys }

three_keys-codes : (i : ℕ) → i < 3 → (three_keys i).morton_code < 1073741824
three_keys-codes i l = ground arith

radix_sort_bucket-Passed_example :
    Passed low_code three_keys 3 three_keys
      (radix_sort_bucket (λ b. 9) (λ b. 8) three_keys no_keys 3).0
radix_sort_bucket-Passed_example =
    radix_sort_bucket-Passed (λ b. 9) (λ b. 8) three_keys no_keys 3 (omega arith)

sort_mesh_keys-Passed_example :
    Passed
      (λ key. key.morton_code)
      three_keys
      3
      no_keys
      (sort_mesh_keys (λ i b. 9) (λ i b. 8) three_keys no_buffers 3)
sort_mesh_keys-Passed_example =
    sort_mesh_keys-Passed (λ i b. 9) (λ i b. 8) three_keys no_buffers 3 (omega arith)
      three_keys-codes

compute_morton_code-gather_example :
    (compute_morton_code 5 3 1000 < 1073741824)
    × (gather 10 (compute_morton_code 5 3 1000) ≡ 5)
    × (gather 10 (compute_morton_code 5 3 1000 / 2) ≡ 3)
    × (gather 10 (compute_morton_code 5 3 1000 / 4) ≡ 1000)
compute_morton_code-gather_example =
    compute_morton_code-gather 5 3 1000 (omega arith) (omega arith) (omega arith)

small_code : compute_morton_code 5 3 1 ≡ 87
unfolding compute_morton_code expand_bits
small_code = refl
