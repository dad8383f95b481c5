-- ===== src/Base/Totals.antt =====
-- The sum of a weight over the first elements of a container.
use Prim.Native.Nat.{ℕ, zero, suc, ◌+◌, ◌≤◌, ◌<◌}
use mathlib.Core.Path.{◌≡◌, refl}
use mathlib.Core.Logic.{inl, inr}
use mathlib.Core.Option.{Option, none, some}
use native.Mathlib.Omega.{arith}
use native.Mathlib.Numerals.{add-one}
use hyprie.Base.Tests.{if◌then◌else◌, ltb, Option-cases}
use hyprie.Base.Containers.{Vault}

abbrev pub weight_at : {A : Type 0} → (A → ℕ) → Option A → ℕ
weight_at w none = 0
weight_at w (some a) = w a

module _ (𝓥 : Vault) {A : Type 0} (w : A → ℕ) where
  open 𝓥 use {
    Vec, size, at, push_back, store, resize, size_push_back, size_store, at_push_back, at_store,
    at_resize,
  }

  unfoldable pub total : Vec A → ℕ → ℕ
  total v zero = 0
  total v (suc n) = total v n + weight_at w (at v n)

  pub total-zero : (v : Vec A) → total v 0 ≡ 0
  unfolding total
  total-zero v = refl

  pub total-push_back :
      (v : Vec A) (a : A) (n : ℕ) → n ≤ size v → total (push_back v a) n ≡ total v n
  unfolding total
  total-push_back v a zero h = refl
  total-push_back v a (suc n) h = ground (arith, total-push_back v a n, at_push_back v a n)

  -- A write at `i` moves the weight of what stood there out, and that of the new element in.
  pub total-store :
      (v : Vec A) (i : ℕ) (a : A) (n : ℕ)
      → i < size v
      → total (store v i a) n + (if ltb i n then weight_at w (at v i) else 0)
        ≡ total v n + (if ltb i n then w a else 0)
  unfolding total
  total-store v i a zero h = ground arith
  total-store v i a (suc n) h = ground (arith, total-store v i a n, at_store v i a n)

  pub total-resize :
      (v : Vec A) (m : ℕ) (a : A) (n : ℕ) → n ≤ m → n ≤ size v → total (resize v m a) n ≡ total v n
  unfolding total
  total-resize v m a zero h k = refl
  total-resize v m a (suc n) h k = ground (arith, total-resize v m a n, at_resize v m a n)

  pub total_all-resize_suc :
      (v : Vec A) (a : A) → total (resize v (size v + 1) a) (size v + 1) ≡ total v (size v) + w a
  unfolding total
  total_all-resize_suc v a = rw (add-one (size v)) (
      ground
        (arith, total-resize v (suc (size v)) a (size v), at_resize v (suc (size v)) a (size v)))

  pub total-ge : (v : Vec A) (i n : ℕ) → i < n → weight_at w (at v i) ≤ total v n
  unfolding total
  total-ge v i zero h = absurd (omega arith)
  total-ge v i (suc n) h = ground (arith, total-ge v i n)

  pub total_all-push_back :
      (v : Vec A) (a : A) → total (push_back v a) (size (push_back v a)) ≡ total v (size v) + w a
  unfolding total
  total_all-push_back v a =
      rw (size_push_back v a, add-one)
        (ground (arith, total-push_back v a (size v), at_push_back v a (size v)))

  pub total_all-store :
      (v : Vec A) (i : ℕ) (a : A)
      → i < size v
      → total (store v i a) (size (store v i a)) + weight_at w (at v i) ≡ total v (size v) + w a
  total_all-store v i a h = rw (size_store v i a) (ground (arith, total-store v i a (size v)))

  pub total-le : (v : Vec A) (n : ℕ) → ((i : ℕ) (a : A) → at v i ≡ some a → w a ≤ 1) → total v n ≤ n
  unfolding total
  total-le v zero h = omega arith
  total-le v (suc n) h = elim (Option-cases (at v n)) [
    | inl e ↦ ground (arith, total-le v n h)
    | inr (a, e) ↦ ground (arith, total-le v n h, h n a e)
  ]
