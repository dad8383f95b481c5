-- ===== src/Procgen/MeshKeys/Step.antt =====
-- The sort of one bucket.
use hyprie.Base.{
  ℕ, ◌+◌, ◌-◌, ◌≡◌, ◌<◌, ◌≤◌, ◌⊎◌, inl, inr, false, ◌==◌, ltb, if◌then◌else◌, refl, ap, sym, ==_iff,
  ◌∙◌, arith, Bool-cases,
}
use hyprie.Procgen.RadixSort.{SortMeshKey}
use hyprie.Procgen.RadixSort.Counts.{count-bound, smaller, equal, smaller_suc, smaller-le}
use hyprie.Procgen.RadixSort.Pass.{Passed}
use hyprie.Procgen.RadixSort.Sorted.{low_code}
use hyprie.Procgen.MeshKeys.{bucket}
use hyprie.Procgen.MeshKeys.Buckets.{Bucketed}

module _ (raw : ℕ → SortMeshKey) (n : ℕ) (small : n < 4294967296) where
  abbrev bucket_of : ℕ → ℕ
  bucket_of i = bucket (raw i)

  module _ (i : ℕ) {before out out_sorted sub : ℕ → SortMeshKey}
      (s : Bucketed raw n small i before out)
      (start : (p : ℕ) → p < smaller bucket_of i n → out_sorted p ≡ out p)
      (rest : (p : ℕ) → out_sorted (smaller bucket_of i n + p) ≡ sub p)
      (r : Passed low_code
        (λ p. out (smaller bucket_of i n + p))
        (equal bucket_of i n)
        (λ p. out (smaller bucket_of i n + p))
        sub) where
    offset :
        (a : ℕ) → a < n → bucket_of a ≡ i → s.to a - smaller bucket_of i n < equal bucket_of i n
    offset a l e =
        let lo : smaller bucket_of i n ≤ s.to a = rw (← e) (s.from_start a l) in
        let hi : s.to a < smaller bucket_of (i + 1) n = rw (← e) (s.to_end a l) in
        omega (arith, smaller_suc bucket_of i n)

    from_first :
        (a : ℕ)
        → a < n
        → bucket_of a ≡ i
        → smaller bucket_of i n + (s.to a - smaller bucket_of i n) ≡ s.to a
    from_first a l e =
        let lo : smaller bucket_of i n ≤ s.to a = rw (← e) (s.from_start a l) in omega arith

    outside :
        (a : ℕ)
        → a < n
        → (bucket_of a == i) ≡ false
        → (s.to a < smaller bucket_of i n) ⊎ (smaller bucket_of i n + equal bucket_of i n ≤ s.to a)
    outside a l e = elim (Bool-cases (ltb (bucket_of a) i)) [
      | inl less ↦
          inl
            (omega (arith, s.to_end a l, smaller-le bucket_of (bucket_of a + 1) i n (ground arith)))
      | inr more ↦ inr (
          omega (
            arith,
            s.from_start a l,
            smaller_suc bucket_of i n,
            smaller-le bucket_of (i + 1) (bucket_of a) n (ground arith),
          ))
    ]

    new_to : ℕ → ℕ
    new_to a =
        if bucket_of a == i
        then smaller bucket_of i n + r.to (s.to a - smaller bucket_of i n)
        else s.to a

    next_put : (a : ℕ) → a < n → out_sorted (new_to a) ≡ raw a
    unfolding new_to
    next_put a l = elim (Bool-cases (bucket_of a == i)) [
      | inl same ↦
          let e = (==_iff (bucket_of a) i).0 same in
          rw same (rest _ ∙ r.put _ (offset a l e) ∙ ap out (from_first a l e) ∙ s.put a l)
      | inr other ↦ rw other (elim (outside a l other) [
        | inl less ↦ start _ less ∙ s.put a l
        | inr more ↦
            let x = s.to a - smaller bucket_of i n in
            let e : smaller bucket_of i n + x ≡ s.to a = omega arith in
            ap out_sorted (sym e) ∙ rest x ∙ r.beyond x (omega arith) ∙ ap out e ∙ s.put a l
      ])
    ]

    new_to_same :
        (a : ℕ)
        → bucket_of a ≡ i
        → new_to a ≡ smaller bucket_of i n + r.to (s.to a - smaller bucket_of i n)
    unfolding new_to
    new_to_same a e = ground arith

    new_to_other : (a : ℕ) → (bucket_of a == i) ≡ false → new_to a ≡ s.to a
    unfolding new_to
    new_to_other a e = rw e refl

    next_from_start : (a : ℕ) → a < n → smaller bucket_of (bucket_of a) n ≤ new_to a
    next_from_start a l = elim (Bool-cases (bucket_of a == i)) [
      | inl same ↦ let e = (==_iff (bucket_of a) i).0 same in rw e (omega (arith, new_to_same a e))
      | inr other ↦ omega (arith, new_to_other a other, s.from_start a l)
    ]

    next_to_end : (a : ℕ) → a < n → new_to a < smaller bucket_of (bucket_of a + 1) n
    next_to_end a l = elim (Bool-cases (bucket_of a == i)) [
      | inl same ↦
          let e = (==_iff (bucket_of a) i).0 same in
          rw e
            (omega (arith, new_to_same a e, smaller_suc bucket_of i n, r.inside _ (offset a l e)))
      | inr other ↦ omega (arith, new_to_other a other, s.to_end a l)
    ]

    -- A place of the bucket is a place of one of its keys.
    owner :
        (a : ℕ)
        → a < n
        → smaller bucket_of i n ≤ s.to a
        → s.to a < smaller bucket_of i n + equal bucket_of i n
        → bucket_of a ≡ i
    owner a l lo hi = elim (Bool-cases (bucket_of a == i)) [
      | inl same ↦ (==_iff (bucket_of a) i).0 same
      | inr other ↦
          absurd (elim (outside a l other) [ inl less ↦ omega arith | inr more ↦ omega arith ])
    ]

    next_onto : (p : ℕ) → p < n → (a : ℕ) × (a < n) × (new_to a ≡ p)
    next_onto p l =
        let (a, la, ea) = s.onto p l in
        elim (Bool-cases (bucket_of a == i)) [
          | inl same ↦
              let e = (==_iff (bucket_of a) i).0 same in
              let (x, lx, ex) = r.onto (p - smaller bucket_of i n) (rw ea at (offset a la e)) in
              let (b, lb, eb) = s.onto (smaller bucket_of i n + x) (
                omega (
                  arith,
                  smaller_suc bucket_of i n,
                  count-bound (λ j. ltb (bucket_of j) (i + 1)) n,
                )) in
              let ob = owner b lb (omega arith) (omega arith) in
              let ex2 : s.to b - smaller bucket_of i n ≡ x = omega arith in
              (
                b,
                lb,
                new_to_same b ob
                    ∙ ap (λ y. smaller bucket_of i n + r.to y) ex2
                    ∙ omega (arith, from_first a la e),
              )
          | inr other ↦ (a, la, new_to_other a other ∙ ea)
        ]

    next_beyond : (p : ℕ) → n ≤ p → out_sorted p ≡ before p
    next_beyond p l =
        let x = p - smaller bucket_of i n in
        let small_i = count-bound (λ j. ltb (bucket_of j) (i + 1)) n in
        let e : smaller bucket_of i n + x ≡ p = omega (arith, smaller_suc bucket_of i n) in
        ap out_sorted (sym e)
        ∙ rest x
        ∙ r.beyond x (omega (arith, smaller_suc bucket_of i n))
        ∙ ap out e
        ∙ s.beyond p l

    low_raw :
        (a : ℕ)
        → a < n
        → bucket_of a ≡ i
        → low_code (out (smaller bucket_of i n + (s.to a - smaller bucket_of i n)))
          ≡ low_code (raw a)
    low_raw a l e = ap (λ p. low_code (out p)) (from_first a l e) ∙ ap low_code (s.put a l)

    next_coded :
        (a b : ℕ)
        → a < n
        → b < n
        → bucket_of a ≡ bucket_of b
        → bucket_of a < i + 1
        → (low_code (raw a) < low_code (raw b)) ⊎ ((low_code (raw a) ≡ low_code (raw b)) × (a < b))
        → new_to a < new_to b
    next_coded a b la lb e l h = elim (Bool-cases (bucket_of a == i)) [
      | inl same ↦
          let ea = (==_iff (bucket_of a) i).0 same in
          let eb = sym e ∙ ea in
          let less = r.ordered _ _ (offset a la ea) (offset b lb eb) (elim h [
            | inl smaller_code ↦ inl (omega (arith, low_raw a la ea, low_raw b lb eb))
            | inr (equal_code, earlier) ↦ inr (
              low_raw a la ea ∙ equal_code ∙ sym (low_raw b lb eb),
              omega (
                arith,
                from_first a la ea,
                from_first b lb eb,
                s.kept a b la lb e (omega arith) earlier,
              ),
            )
          ]) in
          omega (arith, new_to_same a ea, new_to_same b eb)
      | inr other ↦
          let less = s.coded a b la lb e (ground arith) h in
          omega (arith, new_to_other a other, new_to_other b (rw e at other))
    ]

    -- The next bucket is in the order of the codes.
    pub sort-Bucketed : Bucketed raw n small (i + 1) before out_sorted
    sort-Bucketed = record {
      to = new_to;
      from_start = next_from_start;
      to_end = next_to_end;
      put = next_put;
      onto = next_onto;
      beyond = next_beyond;
      coded = next_coded;
      kept = λ a b la lb e l h.
          let less = s.kept a b la lb e (omega arith) h in
          omega (arith, new_to_other a (ground arith), new_to_other b (ground arith));
    }
