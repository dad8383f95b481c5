-- ===== src/Base/Containers.antt =====
-- The sequence containers of the metapool library (`mtp::vault`, `mtp::slag`), which is not part
-- of the repository: the operations that the engine calls, and the contract that it relies on.
use Prim.Native.Nat.{ℕ, ◌+◌, ◌-◌, ◌≤◌, ◌<◌}
use mathlib.Core.Path.{◌≡◌, refl}
use mathlib.Core.List.{List, []}
use mathlib.Core.Option.{Option, none, some}
use native.Mathlib.Omega.{arith}
use hyprie.Base.Tests.{if◌then◌else◌, ◌==◌, ltb}
use hyprie.Base.Lists

-- `at v i` is `v[i]`, `none` where the access is out of range; `store v i a` is `v[i] = a`. `resize` is the
-- call with a fill value, `truncate` the one without, which the engine makes only to shrink.
pub record Vault : Type 1 where
  pub Vec : Type 0 → Type 0
  pub size : {A : Type 0} → Vec A → ℕ
  pub at : {A : Type 0} → Vec A → ℕ → Option A
  pub empty : {A : Type 0} → Vec A
  pub push_back : {A : Type 0} → Vec A → A → Vec A
  pub pop_back : {A : Type 0} → Vec A → Vec A
  pub store : {A : Type 0} → Vec A → ℕ → A → Vec A
  pub resize : {A : Type 0} → Vec A → ℕ → A → Vec A
  pub truncate : {A : Type 0} → Vec A → ℕ → Vec A
  pub at_in : {A : Type 0} (v : Vec A) (i : ℕ) → i < size v → (a : A) × (at v i ≡ some a)
  pub at_out : {A : Type 0} (v : Vec A) (i : ℕ) → size v ≤ i → at v i ≡ none
  pub size_empty : {A : Type 0} → size (empty {A = A}) ≡ 0
  pub size_push_back : {A : Type 0} (v : Vec A) (a : A) → size (push_back v a) ≡ size v + 1
  pub at_push_back :
      {A : Type 0} (v : Vec A) (a : A) (i : ℕ)
      → at (push_back v a) i ≡ (if i == size v then some a else at v i)
  pub size_pop_back : {A : Type 0} (v : Vec A) → 0 < size v → size (pop_back v) + 1 ≡ size v
  pub at_pop_back :
      {A : Type 0} (v : Vec A) (i : ℕ)
      → 0 < size v
      → at (pop_back v) i ≡ (if ltb (i + 1) (size v) then at v i else none)
  pub size_store : {A : Type 0} (v : Vec A) (i : ℕ) (a : A) → size (store v i a) ≡ size v
  pub at_store :
      {A : Type 0} (v : Vec A) (i : ℕ) (a : A) (j : ℕ)
      → i < size v
      → at (store v i a) j ≡ (if i == j then some a else at v j)
  pub size_resize : {A : Type 0} (v : Vec A) (n : ℕ) (a : A) → size (resize v n a) ≡ n
  pub at_resize :
      {A : Type 0} (v : Vec A) (n : ℕ) (a : A) (i : ℕ)
      → at (resize v n a) i ≡ (if ltb i n then if ltb i (size v) then at v i else some a else none)
  pub size_truncate : {A : Type 0} (v : Vec A) (n : ℕ) → n ≤ size v → size (truncate v n) ≡ n
  pub at_truncate :
      {A : Type 0} (v : Vec A) (n i : ℕ)
      → n ≤ size v
      → at (truncate v n) i ≡ (if ltb i n then at v i else none)

-- `v[i] = a`, a fault out of range.
abbrev pub write : (𝓥 : Vault) {A : Type 0} → 𝓥.Vec A → ℕ → A → Option (𝓥.Vec A)
write 𝓥 v i a = if ltb i (𝓥.size v) then some (𝓥.store v i a) else none

module _ {A : Type 0} where
  pub length-drop_last :
      (v : List A)
      → 0 < Lists.length v
      → Lists.length (Lists.take (Lists.length v - 1) v) + 1 ≡ Lists.length v
  length-drop_last v h = omega (arith, Lists.length-take (Lists.length v - 1) v (omega arith))

  pub get_elem?-drop_last :
      (v : List A) (i : ℕ)
      → 0 < Lists.length v
      → Lists.get_elem? (Lists.take (Lists.length v - 1) v) i
        ≡ (if ltb (i + 1) (Lists.length v) then Lists.get_elem? v i else none)
  get_elem?-drop_last v i h = ground (arith, Lists.get_elem?-take (Lists.length v - 1) v i)

-- Lists meet the contract.
abbrev pub list_vault : Vault
list_vault = record {
  Vec = List;
  size = Lists.length;
  at = Lists.get_elem?;
  empty = [];
  push_back = Lists.snoc;
  pop_back = λ v. Lists.take (Lists.length v - 1) v;
  store = Lists.set;
  resize = Lists.resize;
  truncate = λ v n. Lists.take n v;
  at_in = Lists.get_elem?-in;
  at_out = Lists.get_elem?-out;
  size_empty = refl;
  size_push_back = Lists.length-snoc;
  at_push_back = Lists.get_elem?-snoc;
  size_pop_back = length-drop_last;
  at_pop_back = get_elem?-drop_last;
  size_store = Lists.length-set;
  at_store = Lists.get_elem?-set;
  size_resize = Lists.length-resize;
  at_resize = Lists.get_elem?-resize;
  size_truncate = λ v n. Lists.length-take n v;
  at_truncate = λ v n i h. Lists.get_elem?-take n v i;
}
