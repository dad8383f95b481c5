-- ===== src/Procgen/MortonCode/Interleaved.antt =====
-- The digits of a Morton code.
use hyprie.Base.{
  ℕ, zero, suc, ◌+◌, ◌*◌, ◌/◌, ◌%◌, ◌^◌, ◌≡◌, ◌<◌, inl, inr, Bool, true, false, ◌==◌, ==_iff,
  if◌then◌else◌, refl, ap, ap₂, sym, subst, ◌∙◌, arith, Bool-cases, bit_or, bit_or_second,
  bit_or_third, u32,
}
use hyprie.Procgen.MortonCode.{expand_bits, compute_morton_code}

-- The lowest `n` binary digits, each at three times its place.
abbrev spread : ℕ → ℕ → ℕ
spread zero v = 0
spread (suc n) v = v % 2 + 8 * spread n (v / 2)

-- Every third binary digit, `n` of them from the lowest on.
abbrev pub gather : ℕ → ℕ → ℕ
gather zero c = 0
gather (suc n) c = c % 2 + 2 * gather n (c / 8)

abbrev all_below : ℕ → (ℕ → Bool) → Bool
all_below zero test = true
all_below (suc n) test = if test n then all_below n test else false

all_below_lem :
    (n : ℕ) (test : ℕ → Bool) → all_below n test ≡ true → (i : ℕ) → i < n → test i ≡ true
all_below_lem zero test h i l = absurd (omega arith)
all_below_lem (suc n) test h i l = elim (Bool-cases (i == n)) [
  | inl last ↦ let e : i ≡ n = (==_iff i n).0 last in rw e (ground arith)
  | inr earlier ↦ all_below_lem n test (ground arith) i (ground arith)
]

all_spread : all_below 1024 (λ v. expand_bits v == spread 10 v) ≡ true
unfolding expand_bits
all_spread = refl

expand_bits-spread : (v : ℕ) → v < 1024 → expand_bits v ≡ spread 10 v
expand_bits-spread v h =
    (==_iff _ _).0 (all_below_lem 1024 (λ v. expand_bits v == spread 10 v) all_spread v h)

bit_or-spread :
    (n x y z : ℕ)
    → bit_or (bit_or (spread n x) (2 * spread n y)) (4 * spread n z)
      ≡ spread n x + 2 * spread n y + 4 * spread n z
bit_or-spread zero x y z = refl
bit_or-spread (suc n) x y z =
    let u = spread n (x / 2) in
    let v = spread n (y / 2) in
    let w = spread n (z / 2) in
    ap₂ bit_or
      (ap₂ bit_or (omega arith) (omega arith)
        ∙ bit_or_second (x % 2) (y % 2) u (2 * v) (omega arith) (omega arith))
      (omega arith)
    ∙ bit_or_third (x % 2) (y % 2) (z % 2) (bit_or u (2 * v)) (4 * w) (omega arith) (omega arith)
        (omega arith)
    ∙ omega (arith, bit_or-spread n (x / 2) (y / 2) (z / 2))

spread-bound : (n v : ℕ) → 7 * spread n v < 8 ^ n
spread-bound zero v = omega arith
spread-bound (suc n) v = omega (arith, spread-bound n (v / 2))

gather_first :
    (n x y z c : ℕ) → x < 2 ^ n → c ≡ spread n x + 2 * spread n y + 4 * spread n z → gather n c ≡ x
gather_first zero x y z c h e = omega arith
gather_first (suc n) x y z c h e =
    let high = gather_first n (x / 2) (y / 2) (z / 2) (c / 8) (omega arith) (omega arith) in
    omega arith

gather_second :
    (n x y z c : ℕ)
    → y < 2 ^ n
    → c ≡ spread n x + 2 * spread n y + 4 * spread n z
    → gather n (c / 2) ≡ y
gather_second zero x y z c h e = omega arith
gather_second (suc n) x y z c h e =
    let high = gather_second n (x / 2) (y / 2) (z / 2) (c / 8) (omega arith) (omega arith) in
    let same : c / 2 / 8 ≡ c / 8 / 2 = omega arith in omega (arith, ap (gather n) same)

gather_third :
    (n x y z c : ℕ)
    → z < 2 ^ n
    → c ≡ spread n x + 2 * spread n y + 4 * spread n z
    → gather n (c / 4) ≡ z
gather_third zero x y z c h e = omega arith
gather_third (suc n) x y z c h e =
    let high = gather_third n (x / 2) (y / 2) (z / 2) (c / 8) (omega arith) (omega arith) in
    let same : c / 4 / 8 ≡ c / 8 / 4 = omega arith in omega (arith, ap (gather n) same)

shift_one : (s : ℕ) → 7 * s < 8 ^ 10 → u32 (s * 2) ≡ 2 * s
shift_one s h = omega arith

shift_two : (s : ℕ) → 7 * s < 8 ^ 10 → u32 (s * 4) ≡ 4 * s
shift_two s h = omega arith

sum_bound :
    (a b c : ℕ) → 7 * a < 8 ^ 10 → 7 * b < 8 ^ 10 → 7 * c < 8 ^ 10 → a + 2 * b + 4 * c < 1073741824
sum_bound a b c h k l = omega arith

-- For coordinates below 1024, the code has 30 binary digits, and every third digit of it, from the
-- lowest, the second and the third on, gives the three coordinates back.
pub compute_morton_code-gather :
    (x y z : ℕ)
    → x < 1024
    → y < 1024
    → z < 1024
    → (compute_morton_code x y z < 1073741824)
      × (gather 10 (compute_morton_code x y z) ≡ x)
      × (gather 10 (compute_morton_code x y z / 2) ≡ y)
      × (gather 10 (compute_morton_code x y z / 4) ≡ z)
unfolding compute_morton_code
compute_morton_code-gather x y z hx hy hz =
    let twice = shift_one (spread 10 y) (spread-bound 10 y) in
    let four = shift_two (spread 10 z) (spread-bound 10 z) in
    let code : compute_morton_code x y z ≡ spread 10 x + 2 * spread 10 y + 4 * spread 10 z =
      rw (expand_bits-spread x hx, expand_bits-spread y hy, expand_bits-spread z hz, twice, four)
        (bit_or-spread 10 x y z) in
    (
      subst (λ c. c < 1073741824) (sym code)
          (sum_bound (spread 10 x) (spread 10 y) (spread 10 z) (spread-bound 10 x)
            (spread-bound 10 y) (spread-bound 10 z)),
      gather_first 10 x y z _ (omega arith) code,
      gather_second 10 x y z _ (omega arith) code,
      gather_third 10 x y z _ (omega arith) code,
    )
