-- ===== src/Procgen/RadixSort/Counts.antt =====
-- Counting the indices that pass a test.
use hyprie.Base.{
  ℕ, zero, suc, ◌+◌, ◌-◌, ◌≡◌, ◌<◌, ◌≤◌, ◌⊎◌, inl, inr, Bool, true, ◌==◌, ltb, leb, if◌then◌else◌,
  refl, arith, Bool-cases,
}

-- The number of indices below `n` that pass the test.
unfoldable pub count : (ℕ → Bool) → ℕ → ℕ
count test zero = 0
count test (suc n) = count test n + (if test n then 1 else 0)

pub count_zero : (test : ℕ → Bool) → count test 0 ≡ 0
unfolding count
count_zero test = refl

pub count_next :
    (test : ℕ → Bool) (n : ℕ) → count test (n + 1) ≡ count test n + (if test n then 1 else 0)
unfolding count
count_next test n = let e : n + 1 ≡ suc n = omega arith in rw e refl

pub count-le : (test : ℕ → Bool) (m n : ℕ) → m ≤ n → count test m ≤ count test n
unfolding count
count-le test m zero h = ground arith
count-le test m (suc n) h = elim (Bool-cases (leb m n)) [
  | inl less ↦ ground (arith, count-le test m n)
  | inr last ↦ let e : m ≡ suc n = ground arith in rw e (omega arith)
]

pub count-lt : (test : ℕ → Bool) (i n : ℕ) → test i ≡ true → i < n → count test i < count test n
unfolding count
count-lt test i n e h = let k = count-le test (suc i) n (omega arith) in ground arith

pub count-bound : (test : ℕ → Bool) (n : ℕ) → count test n ≤ n
unfolding count
count-bound test zero = omega arith
count-bound test (suc n) = ground (arith, count-bound test n)

pub count-all : (test : ℕ → Bool) (n : ℕ) → ((i : ℕ) → i < n → test i ≡ true) → count test n ≡ n
unfolding count
count-all test zero h = refl
count-all test (suc n) h =
    ground (arith, h n (omega arith), count-all test n (λ i lt. h i (omega arith)))

-- The index before which `q` indices pass, and which passes.
pub nth_passing :
    (test : ℕ → Bool) (n q : ℕ)
    → q < count test n
    → (i : ℕ) × (i < n) × (test i ≡ true) × (count test i ≡ q)
unfolding count
nth_passing test zero q h = absurd (omega arith)
nth_passing test (suc n) q h = elim (Bool-cases (ltb q (count test n))) [
  | inl less ↦ let (i, lt, e, c) = nth_passing test n q (ground arith) in (i, omega arith, e, c)
  | inr last ↦ (n, omega arith, ground arith, ground arith)
]

module _ (bin : ℕ → ℕ) where
  -- The number of indices below `n` in smaller bins than `b`, and in bin `b`.
  abbrev pub smaller : ℕ → ℕ → ℕ
  smaller b n = count (λ i. ltb (bin i) b) n

  abbrev pub equal : ℕ → ℕ → ℕ
  equal b n = count (λ i. bin i == b) n

  pub smaller_suc : (b n : ℕ) → smaller (b + 1) n ≡ smaller b n + equal b n
  unfolding count
  smaller_suc b zero = refl
  smaller_suc b (suc n) = ground (arith, smaller_suc b n)

  pub smaller-le : (b c n : ℕ) → b ≤ c → smaller b n ≤ smaller c n
  unfolding count
  smaller-le b c zero h = omega arith
  smaller-le b c (suc n) h = ground (arith, smaller-le b c n h)

  pub smaller_zero : (n : ℕ) → smaller 0 n ≡ 0
  unfolding count
  smaller_zero zero = refl
  smaller_zero (suc n) = ground (arith, smaller_zero n)

  -- The bin in which the place `p` lies.
  pub bin_of_place :
      (cap p n : ℕ)
      → p < smaller cap n
      → (b : ℕ) × (b < cap) × (smaller b n ≤ p) × (p < smaller (b + 1) n)
  bin_of_place zero p n h = absurd (omega (arith, smaller_zero n))
  bin_of_place (suc c) p n h = elim (Bool-cases (ltb p (smaller c n))) [
    | inl less ↦ let (b, lt, lo, hi) = bin_of_place c p n (ground arith) in (b, omega arith, lo, hi)
    | inr last ↦ (c, omega arith, ground arith, omega (arith, smaller-le (suc c) (c + 1) n))
  ]

  -- The place of index `i` of `n`: behind all smaller bins, and behind the earlier indices of its bin.
  abbrev pub place : ℕ → ℕ → ℕ
  place n i = smaller (bin i) n + equal (bin i) i

  pub place-lt_smaller : (n i : ℕ) → i < n → place n i < smaller (bin i + 1) n
  place-lt_smaller n i h =
      omega (arith, smaller_suc (bin i) n, count-lt (λ j. bin j == bin i) i n (ground arith) h)

  pub place-lt : (n i : ℕ) → i < n → place n i < n
  place-lt n i h =
      omega (arith, place-lt_smaller n i h, count-bound (λ j. ltb (bin j) (bin i + 1)) n)

  -- Places are ordered by the bins, and within a bin as the indices.
  pub place_ordered :
      (n i j : ℕ) → i < n → (bin i < bin j) ⊎ ((bin i ≡ bin j) × (i < j)) → place n i < place n j
  place_ordered n i j h (inl less) =
      omega (arith, place-lt_smaller n i h, smaller-le (bin i + 1) (bin j) n (omega arith))
  place_ordered n i j h (inr (e, lt)) =
      let c = count-lt (λ l. bin l == bin i) i j (ground arith) lt in rw (← e) (omega (arith, c))

  pub place_onto :
      (cap n p : ℕ) → ((i : ℕ) → i < n → bin i < cap) → p < n → (i : ℕ) × (i < n) × (place n i ≡ p)
  place_onto cap n p inside h =
      let (b, lt, lo, hi) =
        bin_of_place cap p n
          (omega (arith, count-all (λ i. ltb (bin i) cap) n (λ i l. ground (arith, inside i l)))) in
      let (i, li, e, c) =
        nth_passing (λ i. bin i == b) n (p - smaller b n) (omega (arith, smaller_suc b n)) in
      let eb : bin i ≡ b = ground arith in (i, li, rw eb (omega arith))
