-- ===== src/Base/Bits.antt =====
-- A mask of ones takes the lowest binary digits.
use Prim.Native.Nat.{
  ℕ, zero, suc, ◌+◌, ◌-◌, ◌*◌, ◌/◌, ◌%◌, ◌^◌, ◌≤◌, ◌<◌, min, max, bit_and, bit_or, digits,
  bit_and-bitwise, bit_or-bitwise,
}
use mathlib.Core.Path.{◌≡◌, refl, ap, ap₂, ◌∙◌}
use native.Mathlib.Omega.{arith}
use native.Mathlib.Nat.{add-mul-mod_self_right, mod-eq_of_lt, mod-lt, div-add-mod'}

-- The digits of a conjunction, with the count of digits to go left open.
abbrev and_upto : ℕ → ℕ → ℕ → ℕ
and_upto n a b = digits (λ b. zero) min n a b

and_upto_fuel : (n m a b : ℕ) → a ≤ n → a ≤ m → and_upto n a b ≡ and_upto m a b
and_upto_fuel zero zero a b h k = refl
and_upto_fuel zero (suc m) zero b h k = refl
and_upto_fuel zero (suc m) (suc a) b h k = absurd (omega arith)
and_upto_fuel (suc n) zero zero b h k = refl
and_upto_fuel (suc n) zero (suc a) b h k = absurd (omega arith)
and_upto_fuel (suc n) (suc m) zero b h k = refl
and_upto_fuel (suc n) (suc m) (suc a) b h k =
    omega (arith, and_upto_fuel n m (suc a / 2) (b / 2) (omega arith) (omega arith))

zero-bit_and : (b : ℕ) → bit_and 0 b ≡ 0
zero-bit_and b = bit_and-bitwise 0 b

bit_and_lowest : (a b : ℕ) → bit_and a b ≡ bit_and (a / 2) (b / 2) * 2 + min (a % 2) (b % 2)
bit_and_lowest zero b = omega (arith, zero-bit_and b, zero-bit_and (b / 2))
bit_and_lowest (suc a) b = omega (
  arith,
  bit_and-bitwise (suc a) b,
  bit_and-bitwise (suc a / 2) (b / 2),
  and_upto_fuel a (suc a / 2) (suc a / 2) (b / 2) (omega arith) (omega arith),
)

-- The same for a disjunction.
abbrev or_upto : ℕ → ℕ → ℕ → ℕ
or_upto n a b = digits (λ b. b) max n a b

or_upto_fuel : (n m a b : ℕ) → a ≤ n → a ≤ m → or_upto n a b ≡ or_upto m a b
or_upto_fuel zero zero a b h k = refl
or_upto_fuel zero (suc m) zero b h k = refl
or_upto_fuel zero (suc m) (suc a) b h k = absurd (omega arith)
or_upto_fuel (suc n) zero zero b h k = refl
or_upto_fuel (suc n) zero (suc a) b h k = absurd (omega arith)
or_upto_fuel (suc n) (suc m) zero b h k = refl
or_upto_fuel (suc n) (suc m) (suc a) b h k =
    omega (arith, or_upto_fuel n m (suc a / 2) (b / 2) (omega arith) (omega arith))

zero-bit_or : (b : ℕ) → bit_or 0 b ≡ b
zero-bit_or b = bit_or-bitwise 0 b

bit_or_lowest : (a b : ℕ) → bit_or a b ≡ bit_or (a / 2) (b / 2) * 2 + max (a % 2) (b % 2)
bit_or_lowest zero b = omega (arith, zero-bit_or b, zero-bit_or (b / 2))
bit_or_lowest (suc a) b = omega (
  arith,
  bit_or-bitwise (suc a) b,
  bit_or-bitwise (suc a / 2) (b / 2),
  or_upto_fuel a (suc a / 2) (suc a / 2) (b / 2) (omega arith) (omega arith),
)

bit_or_left : (a b x : ℕ) → x < 2 → bit_or (2 * a + x) (2 * b) ≡ 2 * bit_or a b + x
bit_or_left a b x h =
    let p : (2 * a + x) / 2 ≡ a = omega arith in
    let q : 2 * b / 2 ≡ b = omega arith in
    let r = bit_or_lowest (2 * a + x) (2 * b) in omega (arith, rw (p, q) at r)

bit_or_right : (a b y : ℕ) → y < 2 → bit_or (2 * a) (2 * b + y) ≡ 2 * bit_or a b + y
bit_or_right a b y h =
    let p : 2 * a / 2 ≡ a = omega arith in
    let q : (2 * b + y) / 2 ≡ b = omega arith in
    let r = bit_or_lowest (2 * a) (2 * b + y) in omega (arith, rw (p, q) at r)

bit_or_double : (a b : ℕ) → bit_or (2 * a) (2 * b) ≡ 2 * bit_or a b
bit_or_double a b =
    let p : 2 * a / 2 ≡ a = omega arith in
    let q : 2 * b / 2 ≡ b = omega arith in
    let r = bit_or_lowest (2 * a) (2 * b) in omega (arith, rw (p, q) at r)

-- Digits at different places, the lowest ones apart.
pub bit_or_second :
    (a b c d : ℕ) → a < 2 → b < 2 → bit_or (8 * c + a) (8 * d + 2 * b) ≡ 8 * bit_or c d + a + 2 * b
bit_or_second a b c d ha hb =
    ap₂ bit_or (omega arith) (omega arith)
    ∙ bit_or_left (2 * (2 * c)) (2 * (2 * d) + b) a ha
    ∙ omega (arith, bit_or_right (2 * c) (2 * d) b hb, bit_or_double c d)

pub bit_or_third :
    (a b e c d : ℕ)
    → a < 2
    → b < 2
    → e < 2
    → bit_or (8 * c + a + 2 * b) (8 * d + 4 * e) ≡ 8 * bit_or c d + a + 2 * b + 4 * e
bit_or_third a b e c d ha hb he =
    ap₂ bit_or (omega arith) (omega arith)
    ∙ bit_or_left (2 * (2 * c) + b) (2 * (2 * d + e)) a ha
    ∙ omega (arith, bit_or_left (2 * c) (2 * d + e) b hb, bit_or_right c d e he)

bit_and-zero_upto : (n a : ℕ) → a ≤ n → bit_and a 0 ≡ 0
bit_and-zero_upto n zero h = zero-bit_and 0
bit_and-zero_upto zero (suc a) h = absurd (omega arith)
bit_and-zero_upto (suc n) (suc a) h =
    omega (arith, bit_and_lowest (suc a) 0, bit_and-zero_upto n (suc a / 2) (omega arith))

mod-double : (a m : ℕ) → 0 < m → a % (2 * m) ≡ a / 2 % m * 2 + a % 2
mod-double a m h =
    ap (λ n. n % (2 * m)) split
    ∙ add-mul-mod_self_right (a / 2 % m * 2 + a % 2) (a / 2 / m) (2 * m)
    ∙ mod-eq_of_lt (omega (arith, mod-lt (a / 2) {m = m} h))
  where
    split : a ≡ a / 2 % m * 2 + a % 2 + a / 2 / m * (2 * m)
    split = omega (arith, div-add-mod' (a / 2) m)

pow_pos : (k : ℕ) → 0 < 2 ^ k
pow_pos zero = omega arith
pow_pos (suc k) = omega (arith, pow_pos k)

-- `a & (2^k - 1)` is the remainder by `2^k`.
pub bit_and-mask : (k a : ℕ) → bit_and a (2 ^ k - 1) ≡ a % 2 ^ k
bit_and-mask zero a = omega (arith, bit_and-zero_upto a a (omega arith))
bit_and-mask (suc k) a = omega (
  arith,
  bit_and_lowest a (2 ^ suc k - 1),
  ap (bit_and (a / 2)) half,
  bit_and-mask k (a / 2),
  mod-double a (2 ^ k) (pow_pos k),
  pow_pos k,
  same_power,
)
  where
    half : (2 ^ suc k - 1) / 2 ≡ 2 ^ k - 1
    half = omega (arith, pow_pos k)

    same_power : a % 2 ^ suc k ≡ a % (2 * 2 ^ k)
    same_power = ap (λ n. a % n) (omega arith)
