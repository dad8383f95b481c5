-- ===== src/Base/Maps.antt =====
-- The hash map of the metapool library (`mtp::make_unordered_map`), which is not part of the
-- repository: the operations that the engine calls, and the contract that it relies on.
use Prim.Native.Nat.{ℕ}
use mathlib.Core.Path.{◌≡◌, refl}
use mathlib.Core.Option.{Option, none, some}
use hyprie.Base.Tests.{if◌then◌else◌, ◌==◌}

-- Keys are `uint64_t`, values `uint32_t`. `insert m k v` is `m[k] = v`.
pub record IndexMap : Type 1 where
  pub Map : Type 0
  pub empty_map : Map
  pub find : Map → ℕ → Option ℕ
  pub insert : Map → ℕ → ℕ → Map
  pub find_empty_map : (k : ℕ) → find empty_map k ≡ none
  pub find_insert :
      (m : Map) (k v j : ℕ) → find (insert m k v) j ≡ (if k == j then some v else find m j)

-- Functions meet the contract.
abbrev pub function_map : IndexMap
function_map = record {
  Map = ℕ → Option ℕ;
  empty_map = λ k. none;
  find = λ m k. m k;
  insert = λ m k v j. if k == j then some v else m j;
  find_empty_map = λ k. refl;
  find_insert = λ m k v j. refl;
}
