-- ===== src/Procgen/MeshKeys/Ordered.antt =====
-- All buckets in turn.
use hyprie.Base.{
  ℕ, zero, suc, ◌+◌, ◌-◌, ◌/◌, ◌%◌, ◌≡◌, ◌<◌, inl, inr, false, ◌==◌, ltb, refl, ap, sym, arith,
  Bool-cases,
}
use hyprie.Procgen.RadixSort.{SortMeshKey, count_keys, scatter_keys}
use hyprie.Procgen.RadixSort.Counts.{
  count-bound, smaller, equal, smaller-le, smaller_zero, place, place-lt_smaller, place_ordered,
  place_onto,
}
use hyprie.Procgen.RadixSort.Pass.{Passed, count_keys-equal, scatter_keys-place}
use hyprie.Procgen.RadixSort.Sorted.{radix_sort_bucket-Passed, radix_sort_bucket-one}
use hyprie.Procgen.MeshKeys.{bucket, write_from, Buffers, sort_bucket, sort_buckets, sort_mesh_keys}
use hyprie.Procgen.MeshKeys.Buckets.{Bucketed, sum_buckets-smaller}
use hyprie.Procgen.MeshKeys.Step.{sort-Bucketed}

module _ (raw : ℕ → SortMeshKey) (n : ℕ) (small : n < 4294967296) where
  abbrev bucket_of : ℕ → ℕ
  bucket_of i = bucket (raw i)

  equal-small : (i : ℕ) → equal bucket_of i n < 4294967296
  equal-small i = omega (arith, count-bound (λ j. bucket_of j == i) n)

  write_from_before :
      (start p : ℕ) (keys sub : ℕ → SortMeshKey) → p < start → write_from start keys sub p ≡ keys p
  unfolding write_from
  write_from_before start p keys sub l = ground arith

  write_from_rest :
      (start p : ℕ) (keys sub : ℕ → SortMeshKey) → write_from start keys sub (start + p) ≡ sub p
  unfolding write_from
  write_from_rest start p keys sub =
      let e : ltb (start + p) start ≡ false = ground arith in
      let d : start + p - start ≡ p = omega arith in rw (e, d) refl

  module _ (garbage_lower garbage_upper : ℕ → ℕ → ℕ) (before : ℕ → SortMeshKey) where
    sort_bucket-Bucketed :
        (i : ℕ) (cnts starts : ℕ → ℕ) (buffers : Buffers)
        → cnts i ≡ equal bucket_of i n
        → starts i ≡ smaller bucket_of i n
        → Bucketed raw n small i before buffers.sorted_mesh_keys
        → Bucketed raw n small
            (i + 1)
            before
            (sort_bucket garbage_lower garbage_upper cnts starts i buffers).sorted_mesh_keys
    unfolding sort_bucket
    sort_bucket-Bucketed i cnts starts buffers ec es s =
        let first = smaller bucket_of i n in
        let keys = buffers.sorted_mesh_keys in
        let sub : ℕ → SortMeshKey = λ p. keys (first + p) in
        let temp : ℕ → SortMeshKey = λ p. buffers.temp_mesh_keys (first + p) in
        let r =
          radix_sort_bucket-Passed (garbage_lower i) (garbage_upper i) sub temp
            (equal bucket_of i n) (equal-small i) in
        rw (ec, es)
          (elim (Bool-cases (ltb 1 (equal bucket_of i n))) [
            | inl many ↦ rw many (
                sort-Bucketed raw n small i s (λ p l. write_from_before first p keys _ l)
                  (λ p. write_from_rest first p keys _) r)
            | inr few ↦
                let same =
                  radix_sort_bucket-one (garbage_lower i) (garbage_upper i) sub temp
                    (equal bucket_of i n) (ground arith) in
                rw few (sort-Bucketed raw n small i s (λ p l. refl) (λ p. refl) (rw same at r))
          ])

    sort_buckets-Bucketed :
        (m i end : ℕ) (cnts starts : ℕ → ℕ) (buffers : Buffers)
        → i + m ≡ end
        → ((b : ℕ) → cnts b ≡ equal bucket_of b n)
        → ((b : ℕ) → b < end → starts b ≡ smaller bucket_of b n)
        → Bucketed raw n small i before buffers.sorted_mesh_keys
        → Bucketed raw n small end before
            (sort_buckets garbage_lower garbage_upper cnts starts i m buffers).sorted_mesh_keys
    unfolding sort_buckets
    sort_buckets-Bucketed zero i end cnts starts buffers e ec es s =
        let d : i ≡ end = omega arith in rw d at s
    sort_buckets-Bucketed (suc m) i end cnts starts buffers e ec es s =
        sort_buckets-Bucketed m (i + 1) end cnts starts _ (omega arith) ec es
          (sort_bucket-Bucketed i cnts starts buffers (ec i) (es i (omega arith)) s)

  module _ (inside : (a : ℕ) → a < n → bucket_of a < 512) where
    finished :
        {before out : ℕ → SortMeshKey}
        → Bucketed raw n small 512 before out
        → Passed (λ key. key.morton_code) raw n before out
    finished s = record {
      to = s.to;
      inside = λ a l.
          omega (arith, s.to_end a l, count-bound (λ j. ltb (bucket_of j) (bucket_of a + 1)) n);
      put = s.put;
      onto = s.onto;
      beyond = s.beyond;
      ordered = λ a b la lb h. elim (Bool-cases (ltb (bucket_of a) (bucket_of b))) [
        | inl less ↦ omega (
          arith,
          s.to_end a la,
          s.from_start b lb,
          smaller-le bucket_of (bucket_of a + 1) (bucket_of b) n (ground arith),
        )
        | inr more ↦
            let e : bucket_of a ≡ bucket_of b = elim h [
              | inl l ↦ ground arith
              | inr (same, l) ↦ ap (λ c. c / 2097152) same
            ] in
            s.coded a b la lb e (inside a la) (elim h [
              | inl l ↦ inl (omega arith)
              | inr (same, l) ↦ inr (ap (λ c. c % 2097152) same, l)
            ])
      ];
    }

    scattered :
        (before : ℕ → SortMeshKey) (starts : ℕ → ℕ)
        → ((b : ℕ) → b < 512 → starts b ≡ smaller bucket_of b n)
        → Bucketed raw n small 0 before (scatter_keys bucket raw before starts 0 n)
    scattered before starts es =
        let s = scatter_keys-place bucket raw n small 512 before starts es inside in
        record {
          to = place bucket_of n;
          from_start = λ a l. omega arith;
          to_end = λ a l. place-lt_smaller bucket_of n a l;
          put = s.0;
          onto = λ p l. place_onto bucket_of 512 n p inside l;
          beyond = s.1;
          coded = λ a b la lb e l h. absurd (omega arith);
          kept = λ a b la lb e l h. place_ordered bucket_of n a b la (inr (e, h));
        }

-- For codes of 30 binary digits, the part of `build` that orders the keys of the meshes sorts them by
-- their codes: it puts every key at a place of its own below the number of keys, every such place
-- gets a key, and keys with equal codes stay in their order.
pub sort_mesh_keys-Passed :
    (garbage_lower garbage_upper : ℕ → ℕ → ℕ) (raw : ℕ → SortMeshKey) (buffers : Buffers) (n : ℕ)
    → n < 4294967296
    → ((i : ℕ) → i < n → (raw i).morton_code < 1073741824)
    → Passed
        (λ key. key.morton_code)
        raw
        n
        buffers.sorted_mesh_keys
        (sort_mesh_keys garbage_lower garbage_upper raw buffers n)
unfolding sort_mesh_keys
sort_mesh_keys-Passed garbage_lower garbage_upper raw buffers n small codes =
    let cnts = count_keys bucket raw (λ b. 0) 0 n in
    let counted = count_keys-equal bucket raw n small in
    let summed =
      sum_buckets-smaller raw n small 512 0 512 0 cnts (λ b. 0) (omega arith) counted
        (sym (smaller_zero (λ i. bucket (raw i)) n)) (λ b l. absurd (omega arith)) in
    let inside : (i : ℕ) → i < n → bucket (raw i) < 512 = λ i l. omega (arith, codes i l) in
    finished raw n small inside (
      sort_buckets-Bucketed raw n small garbage_lower garbage_upper buffers.sorted_mesh_keys 512 0
        512 cnts _ _ (omega arith) counted summed
        (scattered raw n small inside buffers.sorted_mesh_keys _ summed))
