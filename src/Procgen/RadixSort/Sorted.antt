-- ===== src/Procgen/RadixSort/Sorted.antt =====
-- The two passes together.
use hyprie.Base.{
  ℕ, ◌+◌, ◌*◌, ◌/◌, ◌%◌, ◌≡◌, ◌<◌, ◌≤◌, ◌⊎◌, inl, inr, true, false, ◌==◌, ltb, leb, refl, ap, sym,
  ==_iff, ◌∙◌, arith, Bool-cases, bit_and-mask,
}
use hyprie.Procgen.RadixSort.{
  SortMeshKey, bin_lower, bin_upper, radix_bin_cap_lower, radix_bin_cap_upper, pass,
  radix_sort_bucket,
}
use hyprie.Procgen.RadixSort.Pass.{Passed, pass-Passed}

-- The 21 binary digits that the two passes read.
abbrev pub low_code : SortMeshKey → ℕ
low_code key = key.morton_code % 2097152

bin_lower-eq : (key : SortMeshKey) → bin_lower key ≡ key.morton_code % 2048
bin_lower-eq key = bit_and-mask 11 key.morton_code

bin_upper-eq : (key : SortMeshKey) → bin_upper key ≡ key.morton_code / 2048 % 1024
bin_upper-eq key = bit_and-mask 10 (key.morton_code / 2048)

-- Keys are put in order, from the smallest test value on.
pub Passed-sorted :
    {value : SortMeshKey → ℕ} {keys before out : ℕ → SortMeshKey} {n : ℕ}
    → Passed value keys n before out
    → (p q : ℕ) → p ≤ q
    → q < n
    → value (out p) ≤ value (out q)
Passed-sorted {value} {keys} {before} {out} {n} s p q h lt =
    let (i, li, ei) = s.onto p (omega arith) in
    let (j, lj, ej) = s.onto q lt in
    let vp : value (out p) ≡ value (keys i) =
      ap (λ r. value (out r)) (sym ei) ∙ ap value (s.put i li) in
    let vq : value (out q) ≡ value (keys j) =
      ap (λ r. value (out r)) (sym ej) ∙ ap value (s.put j lj) in
    elim (Bool-cases (ltb (value (keys j)) (value (keys i)))) [
      | inl less ↦ absurd (omega (arith, s.ordered j i lj li (inl (ground arith))))
      | inr more ↦ ground arith
    ]

less_irrefl : {a b : ℕ} → a ≡ b → a < b → ⊥
less_irrefl e l = omega arith

one_le : (n : ℕ) → leb n 1 ≡ true → n ≤ 1
one_le n e = ground arith

digits : (c : ℕ) → c % 2097152 ≡ c / 2048 % 1024 * 2048 + c % 2048
digits c = omega arith

low_cases_from :
    (c d : ℕ) {x y a b i j : ℕ}
    → (c % 2097152 < d % 2097152) ⊎ ((c % 2097152 ≡ d % 2097152) × (i < j))
    → x ≡ c % 2048
    → y ≡ d % 2048
    → a ≡ c / 2048 % 1024
    → b ≡ d / 2048 % 1024
    → a ≡ b
    → (x < y) ⊎ ((x ≡ y) × (i < j))
low_cases_from c d (inl less) ex ey ea eb e = inl (omega (arith, digits c, digits d))
low_cases_from c d (inr (same, before)) ex ey ea eb e =
    inr (omega (arith, digits c, digits d), before)

low_upper_from :
    (c d : ℕ) {a b i j : ℕ}
    → (c % 2097152 < d % 2097152) ⊎ ((c % 2097152 ≡ d % 2097152) × (i < j))
    → a ≡ c / 2048 % 1024
    → b ≡ d / 2048 % 1024
    → ¬ (a ≡ b)
    → a < b
low_upper_from c d (inl less) ea eb other = omega (arith, digits c, digits d)
low_upper_from c d (inr (same, before)) ea eb other = omega (arith, digits c, digits d)

module _ (keys temp_keys sorted before : ℕ → SortMeshKey) (n : ℕ)
    (lower : Passed bin_lower keys n before temp_keys)
    (upper : Passed bin_upper temp_keys n keys sorted) where
  compose_ordered :
      (i j : ℕ)
      → i < n
      → j < n
      → (low_code (keys i) < low_code (keys j))
        ⊎ ((low_code (keys i) ≡ low_code (keys j)) × (i < j))
      → upper.to (lower.to i) < upper.to (lower.to j)
  compose_ordered i j li lj h =
      let ui : bin_upper (temp_keys (lower.to i)) ≡ (keys i).morton_code / 2048 % 1024 =
        ap bin_upper (lower.put i li) ∙ bin_upper-eq (keys i) in
      let uj : bin_upper (temp_keys (lower.to j)) ≡ (keys j).morton_code / 2048 % 1024 =
        ap bin_upper (lower.put j lj) ∙ bin_upper-eq (keys j) in
      upper.ordered (lower.to i) (lower.to j) (lower.inside i li) (lower.inside j lj)
        (elim (Bool-cases
          (bin_upper (temp_keys (lower.to i)) == bin_upper (temp_keys (lower.to j)))) [
            | inl same ↦
                inr (ground arith, lower.ordered i j li lj (low_cases ui uj ((==_iff _ _).0 same)))
            | inr other ↦ inl (low_upper ui uj other)
          ])
    where
      low_cases :
          {a b : ℕ}
          → a ≡ (keys i).morton_code / 2048 % 1024
          → b ≡ (keys j).morton_code / 2048 % 1024
          → a ≡ b
          → (bin_lower (keys i) < bin_lower (keys j))
            ⊎ ((bin_lower (keys i) ≡ bin_lower (keys j)) × (i < j))
      low_cases ea eb e =
          low_cases_from _ _ h (bin_lower-eq (keys i)) (bin_lower-eq (keys j)) (ea) eb e

      low_upper :
          {a b : ℕ}
          → a ≡ (keys i).morton_code / 2048 % 1024
          → b ≡ (keys j).morton_code / 2048 % 1024
          → (a == b) ≡ false
          → a < b
      low_upper ea eb e = low_upper_from _ _ h ea eb (ground arith)

  compose : Passed low_code keys n keys sorted
  compose = record {
    to = λ i. upper.to (lower.to i);
    inside = λ i l. upper.inside (lower.to i) (lower.inside i l);
    put = λ i l. upper.put (lower.to i) (lower.inside i l) ∙ lower.put i l;
    onto = λ p l.
        let (a, la, ea) = upper.onto p l in
        let (i, li, ei) = lower.onto a la in (i, li, ap upper.to ei ∙ ea);
    ordered = compose_ordered;
    beyond = upper.beyond;
  }

-- For fewer than 2^32 keys, the function sorts them in their place by the lower 21 binary digits of
-- their codes: it puts every key at a place of its own below the number of keys, every such place
-- gets a key, keys with equal digits stay in their order, and nothing behind the keys changes.
pub radix_sort_bucket-Passed :
    (garbage_lower garbage_upper : ℕ → ℕ) (keys temp_keys : ℕ → SortMeshKey) (n : ℕ)
    → n < 4294967296
    → Passed low_code keys n keys (radix_sort_bucket garbage_lower garbage_upper keys temp_keys n).0
unfolding radix_sort_bucket
radix_sort_bucket-Passed garbage_lower garbage_upper keys temp_keys n small =
    elim (Bool-cases (leb n 1)) [
      | inl one ↦ rw one (record {
        to = λ i. i;
        inside = λ i l. l;
        put = λ i l. refl;
        onto = λ p l. (p, l, refl);
        ordered = λ i j li lj h. one_place one i j li lj h;
        beyond = λ p l. refl;
      })
      | inr more ↦
          let lower =
            pass-Passed bin_lower radix_bin_cap_lower garbage_lower keys temp_keys n (omega arith)
              small (λ i l. omega (arith, bin_lower-eq (keys i))) in
          let mid = pass bin_lower radix_bin_cap_lower garbage_lower keys temp_keys n in
          let upper =
            pass-Passed bin_upper radix_bin_cap_upper garbage_upper mid keys n (omega arith) small
              (λ i l. omega (arith, bin_upper-eq (mid i))) in
          rw more (compose keys mid _ temp_keys n lower upper)
    ]
  where
    one_place :
        leb n 1 ≡ true
        → (i j : ℕ) → i < n
        → j < n
        → (low_code (keys i) < low_code (keys j))
          ⊎ ((low_code (keys i) ≡ low_code (keys j)) × (i < j))
        → i < j
    one_place one i j li lj (inl less) =
        absurd (less_irrefl (ap (λ k. low_code (keys k)) (omega (arith, one_le n one))) less)
    one_place one i j li lj (inr (same, before)) = before

-- Without a key to compare there is nothing to do.
pub radix_sort_bucket-one :
    (garbage_lower garbage_upper : ℕ → ℕ) (keys temp_keys : ℕ → SortMeshKey) (n : ℕ)
    → leb n 1 ≡ true
    → (radix_sort_bucket garbage_lower garbage_upper keys temp_keys n).0 ≡ keys
unfolding radix_sort_bucket
radix_sort_bucket-one garbage_lower garbage_upper keys temp_keys n one = rw one refl
