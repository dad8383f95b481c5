-- ===== src/Thread/MpmcRing/Slots.antt =====
-- Which positions share a slot, and the differences of small numbers.
use hyprie.Base.{
  pos, negsuc, ◌⊎◌, inl, inr, Bool-cases, ℕ, zero, suc, ◌+◌, ◌-◌, ◌*◌, ◌/◌, ◌^◌, ◌≡◌, ◌<◌, ◌≤◌,
  some, ◌-ℤ◌, sub_ℕ, arith, sym, ◌∙◌, bit_and-mask, ltb, leb, ◌==◌, if◌then◌else◌,
}
use native.Mathlib.Nat.{add-mod_right, mod-eq_of_lt, div-add-mod'}
use hyprie.Thread.MpmcRing.{slot, difference, store_at, store_sequences}

-- A sequence number and a position below 2^31 have a difference.
pub difference-eq : (a b : ℕ) → a < 2147483648 → b < 2147483648 → difference a b ≡ some (sub_ℕ a b)
unfolding difference ◌-ℤ◌
difference-eq a b h k = ground arith

pub slot-add : (k p : ℕ) → slot k (p + 2 ^ k) ≡ slot k p
unfolding slot
slot-add k p = bit_and-mask k (p + 2 ^ k) ∙ add-mod_right p (2 ^ k) ∙ sym (bit_and-mask k p)

quotients_lt : (q r c : ℕ) → q * c < r * c → q * c + c ≤ r * c
quotients_lt q zero c h = absurd (omega arith)
quotients_lt zero (suc r) c h = omega arith
quotients_lt (suc q) (suc r) c h = omega (arith, quotients_lt q r c (omega arith))

-- Two positions with one slot are a capacity apart.
pub slot-far : (k p q : ℕ) → slot k p ≡ slot k q → p < q → p + 2 ^ k ≤ q
unfolding slot
slot-far k p q e h = omega (
  arith,
  quotients_lt (p / 2 ^ k) (q / 2 ^ k) (2 ^ k) (
      omega (
        arith,
        e,
        bit_and-mask k p,
        bit_and-mask k q,
        div-add-mod' p (2 ^ k),
        div-add-mod' q (2 ^ k),
      )),
  e,
  bit_and-mask k p,
  bit_and-mask k q,
  div-add-mod' p (2 ^ k),
  div-add-mod' q (2 ^ k),
)

-- Slots below the capacity have their own number.
pub slot-eq : (k p : ℕ) → p < 2 ^ k → slot k p ≡ p
unfolding slot
slot-eq k p h = bit_and-mask k p ∙ mod-eq_of_lt h

pub store_sequences-eq :
    (n : ℕ) (f : ℕ → ℕ) (i j : ℕ)
    → store_sequences f i n j ≡ (if leb i j then if ltb j (i + n) then j else f j else f j)
unfolding store_sequences
store_sequences-eq zero f i j = ground arith
store_sequences-eq (suc n) f i j = ground (arith, store_sequences-eq n (store_at f i i) (i + 1) j)

-- The three signs of a difference.
pub difference-cases :
    (a b : ℕ)
    → a < 2147483648
    → b < 2147483648
    → ((a ≡ b) × (difference a b ≡ some (pos 0)))
      ⊎ (((n : ℕ) × (b < a) × (difference a b ≡ some (pos (suc n))))
          ⊎ ((n : ℕ) × (a < b) × (difference a b ≡ some (negsuc n))))
difference-cases a b h k = elim (Bool-cases (a == b)) [
  | inl same ↦ inl (ground arith, ground (arith, difference-eq a b h k))
  | inr other ↦ elim (Bool-cases (ltb b a)) [
    | inl less ↦
        let e : a - b ≡ suc (a - b - 1) = ground arith in
        inr (inl (a - b - 1, ground arith, ground (arith, difference-eq a b h k, e)))
    | inr more ↦ inr (inr (b - a - 1, ground arith, ground (arith, difference-eq a b h k)))
  ]
]
