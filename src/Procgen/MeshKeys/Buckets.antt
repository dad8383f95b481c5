-- ===== src/Procgen/MeshKeys/Buckets.antt =====
-- The keys by buckets, and the call for one bucket.
use hyprie.Base.{
  ℕ, zero, suc, ◌+◌, ◌≡◌, ◌<◌, ◌≤◌, ◌⊎◌, inl, inr, ◌==◌, ltb, ap, ==_iff, ◌∙◌, arith, Bool-cases,
}
use hyprie.Procgen.RadixSort.{SortMeshKey}
use hyprie.Procgen.RadixSort.Counts.{count-bound, smaller, equal, smaller_suc}
use hyprie.Procgen.RadixSort.Sorted.{low_code}
use hyprie.Procgen.MeshKeys.{bucket, sum_buckets}

module _ (raw : ℕ → SortMeshKey) (n : ℕ) (small : n < 4294967296) where
  abbrev pub bucket_of : ℕ → ℕ
  bucket_of i = bucket (raw i)

  pub sum_buckets-smaller :
      (m i end sum : ℕ) (cnts starts : ℕ → ℕ)
      → i + m ≡ end
      → ((b : ℕ) → cnts b ≡ equal bucket_of b n)
      → sum ≡ smaller bucket_of i n
      → ((b : ℕ) → b < i → starts b ≡ smaller bucket_of b n)
      → (b : ℕ) → b < end
      → sum_buckets cnts starts sum i m b ≡ smaller bucket_of b n
  unfolding sum_buckets
  sum_buckets-smaller zero i end sum cnts starts e h s o b lt = o b (omega arith)
  sum_buckets-smaller (suc m) i end sum cnts starts e h s o b lt =
      sum_buckets-smaller m (i + 1) end _ cnts _ (omega arith) h
        (omega
          (arith, h i, smaller_suc bucket_of i n, count-bound (λ j. ltb (bucket_of j) (i + 1)) n))
        (λ c l. elim (Bool-cases (i == c)) [
          | inl same ↦
              let ec : i ≡ c = (==_iff i c).0 same in
              rw same (s ∙ ap (λ d. smaller bucket_of d n) ec)
          | inr other ↦ rw other (o c (ground arith))
        ])
        b lt

  -- The keys are permuted, each within the places of its bucket; buckets below `i` are in the order
  -- of the codes, the other buckets in the order of the raw keys.
  pub record Bucketed (i : ℕ) (before out : ℕ → SortMeshKey) : Type 0 where
    pub to : ℕ → ℕ
    pub from_start : (a : ℕ) → a < n → smaller bucket_of (bucket_of a) n ≤ to a
    pub to_end : (a : ℕ) → a < n → to a < smaller bucket_of (bucket_of a + 1) n
    pub put : (a : ℕ) → a < n → out (to a) ≡ raw a
    pub onto : (p : ℕ) → p < n → (a : ℕ) × (a < n) × (to a ≡ p)
    pub beyond : (p : ℕ) → n ≤ p → out p ≡ before p
    pub coded :
        (a b : ℕ)
        → a < n
        → b < n
        → bucket_of a ≡ bucket_of b
        → bucket_of a < i
        → (low_code (raw a) < low_code (raw b)) ⊎ ((low_code (raw a) ≡ low_code (raw b)) × (a < b))
        → to a < to b
    pub kept :
        (a b : ℕ)
        → a < n
        → b < n
        → bucket_of a ≡ bucket_of b
        → i ≤ bucket_of a
        → a < b
        → to a < to b
