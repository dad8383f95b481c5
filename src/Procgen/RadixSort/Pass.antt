-- ===== src/Procgen/RadixSort/Pass.antt =====
-- What one pass of the sort does.
use hyprie.Base.{
  ℕ, zero, suc, ◌+◌, ◌-◌, ◌≡◌, ◌≢◌, ◌<◌, ◌≤◌, ◌⊎◌, inl, inr, ◌==◌, ltb, refl, ap, sym, ◌∙◌, arith,
  u32, Bool-cases, ==_iff,
}
use hyprie.Procgen.RadixSort.{SortMeshKey, store_at, count_keys, scatter_keys, sum_bins, pass}
use hyprie.Procgen.RadixSort.Counts.{
  count_zero, count_next, count-bound, smaller, equal, smaller_suc, smaller_zero, place, place-lt,
  place_ordered, place_onto,
}

-- A pass puts the keys at places that are ordered by their bins, and then as the keys were.
pub record Passed (bin : SortMeshKey → ℕ) (keys : ℕ → SortMeshKey) (n : ℕ)
    (before out : ℕ → SortMeshKey) : Type 0 where
  pub to : ℕ → ℕ
  pub inside : (i : ℕ) → i < n → to i < n
  pub put : (i : ℕ) → i < n → out (to i) ≡ keys i
  pub onto : (p : ℕ) → p < n → (i : ℕ) × (i < n) × (to i ≡ p)
  pub ordered :
      (i j : ℕ)
      → i < n
      → j < n
      → (bin (keys i) < bin (keys j)) ⊎ ((bin (keys i) ≡ bin (keys j)) × (i < j))
      → to i < to j
  pub beyond : (p : ℕ) → n ≤ p → out p ≡ before p

module _ (bin : SortMeshKey → ℕ) (keys : ℕ → SortMeshKey) where
  abbrev bins : ℕ → ℕ
  bins i = bin (keys i)

  count_keys_lem :
      (n i end : ℕ) (histogram : ℕ → ℕ)
      → i + n ≡ end
      → end < 4294967296
      → ((b : ℕ) → histogram b ≡ equal bins b i)
      → (b : ℕ) → count_keys bin keys histogram i n b ≡ equal bins b end
  unfolding count_keys
  count_keys_lem zero i end histogram e small h b = h b ∙ ap (equal bins b) (omega arith)
  count_keys_lem (suc n) i end histogram e small h b =
      count_keys_lem n (i + 1) end _ (omega arith) small step b
    where
      step :
          (b : ℕ)
          → store_at histogram (bins i) (u32 (histogram (bins i) + 1)) b ≡ equal bins b (i + 1)
      step b = ground (
        arith,
        h b,
        h (bins i),
        count-bound (λ j. bins j == bins i) i,
        count_next (λ j. bins j == b) i,
      )

  sum_bins_lem :
      (n i end total : ℕ) (histogram offsets : ℕ → ℕ)
      → i + n ≡ end
      → 0 < i
      → total < 4294967296
      → ((b : ℕ) → histogram b ≡ equal bins b total)
      → ((b : ℕ) → b < i → offsets b ≡ smaller bins b total)
      → (b : ℕ) → b < end
      → sum_bins histogram offsets i n b ≡ smaller bins b total
  unfolding sum_bins
  sum_bins_lem zero i end total histogram offsets e pos_i small h o b lt = o b (omega arith)
  sum_bins_lem (suc n) i end total histogram offsets e pos_i small h o b lt =
      sum_bins_lem n (i + 1) end total histogram _ (omega arith) (omega arith) small h step b lt
    where
      next : smaller bins i total ≡ smaller bins (i - 1) total + equal bins (i - 1) total
      next = let s : i - 1 + 1 ≡ i = omega arith in rw s at (smaller_suc bins (i - 1) total)

      step :
          (c : ℕ)
          → c < i + 1
          → store_at offsets i (u32 (offsets (i - 1) + histogram (i - 1))) c ≡ smaller bins c total
      step c l = elim (Bool-cases (i == c)) [
        | inl same ↦
            let ec : i ≡ c = (==_iff i c).0 same in
            let sum : u32 (offsets (i - 1) + histogram (i - 1)) ≡ smaller bins i total = omega (
              arith,
              next,
              o (i - 1) (omega arith),
              h (i - 1),
              count-bound (λ j. ltb (bins j) i) total,
            ) in
            rw same (sum ∙ ap (λ d. smaller bins d total) ec)
        | inr other ↦ rw other (o c (ground arith))
      ]

  module _ (total : ℕ) (before : ℕ → SortMeshKey) (small : total < 4294967296) where
    -- What holds when the first `i` keys have been put.
    record Scattered (i cap : ℕ) (out : ℕ → SortMeshKey) (offsets : ℕ → ℕ) : Type 0 where
      next : (b : ℕ) → b < cap → offsets b ≡ smaller bins b total + equal bins b i
      put : (j : ℕ) → j < i → out (place bins total j) ≡ keys j
      beyond : (p : ℕ) → total ≤ p → out p ≡ before p

    distinct : (i j : ℕ) → i < total → j < i → place bins total i ≢ place bins total j
    distinct i j h l e =
        ground (arith, place_ordered bins total i j h, place_ordered bins total j i (omega arith))

    scatter_step :
        {i cap : ℕ} {out : ℕ → SortMeshKey} {offsets : ℕ → ℕ}
        → i < total
        → bins i < cap
        → Scattered i cap out offsets
        → Scattered
            (i + 1)
            cap
            (store_at out (offsets (bins i)) (keys i))
            (store_at offsets (bins i) (u32 (offsets (bins i) + 1)))
    scatter_step {i} {cap} {out} {offsets} h lt s =
        let here : offsets (bins i) ≡ place bins total i = s.next (bins i) lt in
        record {
          next = λ b l.
              ground
                (arith, s.next b l, here, place-lt bins total i h, count_next (λ j. bins j == b) i);
          put = λ j l. elim (Bool-cases (j == i)) [
            | inl same ↦ let ej : j ≡ i = (==_iff j i).0 same in rw (ej, here) (ground arith)
            | inr other ↦
                rw here (ground (arith, s.put j (ground arith), distinct i j h (ground arith)))
          ];
          beyond = λ p l. ground (arith, s.beyond p l, here, place-lt bins total i h);
        }

    scatter_keys_lem :
        (n i cap : ℕ) {out : ℕ → SortMeshKey} {offsets : ℕ → ℕ}
        → i + n ≡ total
        → ((j : ℕ) → j < total → bins j < cap)
        → Scattered i cap out offsets
        → ((j : ℕ)
            → j < total
            → scatter_keys bin keys out offsets i n (place bins total j) ≡ keys j)
          × ((p : ℕ) → total ≤ p → scatter_keys bin keys out offsets i n p ≡ before p)
    unfolding scatter_keys
    scatter_keys_lem zero i cap e inside s = ((λ j l. s.put j (omega arith)), s.beyond)
    scatter_keys_lem (suc n) i cap e inside s =
        scatter_keys_lem n (i + 1) cap (omega arith) inside
          (scatter_step (omega arith) (inside i (omega arith)) s)

module _ (bin : SortMeshKey → ℕ) (keys : ℕ → SortMeshKey) (n : ℕ) (small : n < 4294967296) where
  no_keys : (b : ℕ) → 0 ≡ equal (λ i. bin (keys i)) b 0
  no_keys b = sym (count_zero (λ i. bin (keys i) == b))

  -- The histogram holds how many keys each bin has.
  pub count_keys-equal :
      (b : ℕ) → count_keys bin keys (λ c. 0) 0 n b ≡ equal (λ i. bin (keys i)) b n
  count_keys-equal = count_keys_lem bin keys n 0 n (λ c. 0) (omega arith) small (λ c. no_keys c)

  -- With the right offsets every key is put at its place.
  pub scatter_keys-place :
      (cap : ℕ) (out : ℕ → SortMeshKey) (offsets : ℕ → ℕ)
      → ((b : ℕ) → b < cap → offsets b ≡ smaller (λ i. bin (keys i)) b n)
      → ((i : ℕ) → i < n → bin (keys i) < cap)
      → ((j : ℕ)
          → j < n
          → scatter_keys bin keys out offsets 0 n (place (λ i. bin (keys i)) n j) ≡ keys j)
        × ((p : ℕ) → n ≤ p → scatter_keys bin keys out offsets 0 n p ≡ out p)
  scatter_keys-place cap out offsets summed inside =
      scatter_keys_lem bin keys n out small n 0 cap (omega arith) inside (record {
        next = λ b l. omega (arith, summed b l, no_keys b);
        put = λ j l. absurd (omega arith);
        beyond = λ p l. refl;
      })

-- A pass over keys whose bins are below the number of bins.
pub pass-Passed :
    (bin : SortMeshKey → ℕ) (cap : ℕ) (garbage : ℕ → ℕ) (keys out : ℕ → SortMeshKey) (n : ℕ)
    → 0 < cap
    → n < 4294967296
    → ((i : ℕ) → i < n → bin (keys i) < cap)
    → Passed bin keys n out (pass bin cap garbage keys out n)
unfolding pass
pass-Passed bin cap garbage keys out n pos_cap small inside =
    let histogram = count_keys bin keys (λ b. 0) 0 n in
    let summed =
      sum_bins_lem bin keys (cap - 1) 1 cap n histogram (store_at garbage 0 0) (omega arith)
        (omega arith) small (count_keys-equal bin keys n small)
        (λ b l. ground (arith, smaller_zero (λ i. bin (keys i)) n)) in
    let s = scatter_keys-place bin keys n small cap out _ summed inside in
    record {
      to = place (λ i. bin (keys i)) n;
      inside = place-lt (λ i. bin (keys i)) n;
      put = s.0;
      onto = λ p l. place_onto (λ i. bin (keys i)) cap n p inside l;
      ordered = λ i j h l. place_ordered (λ i. bin (keys i)) n i j h;
      beyond = s.1;
    }
