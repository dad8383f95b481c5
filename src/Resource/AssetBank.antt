-- ===== src/Resource/AssetBank.antt =====
-- hpr/resource/asset.hpp and hpr/resource/asset_bank.hpp: objects that are found by a name, by the
-- hash of a name, or by the hash of a name and a discriminator.
pub mod Search
pub mod Inv
pub mod Add
pub mod Remove
use hyprie.Base.{
  ℕ, zero, suc, ◌+◌, ◌-◌, ◌*◌, ◌≡◌, ◌<◌, Bool, true, false, ◌&&◌, Option, none, some, List, [], ◌∷◌,
  ltb, ◌==◌, if◌then◌else◌, ◌>>=◌, u64, bit_xor, Vault,
}
use hyprie.Resource.HandleStore.{Handle, HandleStore, Pointer, null, create, destroy}
use hyprie.Resource.HandleStore

module _ (𝓥 : Vault) where
  open 𝓥 use {Vec, size, at}

  -- `vault::erase` with a position, which closes the gap.
  pub record Erasing : Type 1 where
    pub erase : {A : Type 0} → Vec A → ℕ → Vec A
    pub size_erase : {A : Type 0} (v : Vec A) (i : ℕ) → i < size v → size (erase v i) + 1 ≡ size v
    pub at_erase :
        {A : Type 0} (v : Vec A) (i j : ℕ)
        → i < size v
        → at (erase v i) j ≡ (if ltb j i then at v j else at v (j + 1))

-- A name is its sequence of `unsigned char`.
abbrev pub Uri : Type 0
Uri = List ℕ

unfoldable pub same_uri : Uri → Uri → Bool
same_uri [] [] = true
same_uri [] (d ∷ ds) = false
same_uri (c ∷ cs) [] = false
same_uri (c ∷ cs) (d ∷ ds) = (c == d) && same_uri cs ds

unfoldable pub hash_from : ℕ → Uri → ℕ
hash_from hash [] = hash
hash_from hash (character ∷ rest) = hash_from (u64 (bit_xor hash character * 1099511628211)) rest

unfoldable pub hash_uri : Uri → ℕ
hash_uri uri = hash_from 1469598103934665603 uri

abbrev pub mix_phi64 : ℕ
mix_phi64 = 0x9E3779B97F4A7C15

abbrev pub mix_mm364 : ℕ
mix_mm364 = 0xC2B2AE3D27D4EB4F

unfoldable pub composite_hash_id : Uri → ℕ → ℕ
composite_hash_id uri id = bit_xor (hash_uri uri) (u64 (id * mix_phi64))

unfoldable pub composite_hash_ids : Uri → ℕ → ℕ → ℕ
composite_hash_ids uri id_0 id_1 =
    bit_xor (bit_xor (hash_uri uri) (u64 (id_0 * mix_phi64))) (u64 (id_1 * mix_mm364))

unfoldable pub composite_hash_uris : Uri → Uri → ℕ
composite_hash_uris uri_0 uri_1 = bit_xor (hash_uri uri_0) (u64 (hash_uri uri_1 * mix_phi64))

pub record Asset : Type 0 where
  pub uri : Uri
  pub uri_hash : ℕ
  pub handle : Handle

-- The conditions of the searches.
abbrev pub has_uri : Uri → Asset → Bool
has_uri uri asset = same_uri asset.uri uri

abbrev pub has_hash : ℕ → Asset → Bool
has_hash hash asset = asset.uri_hash == hash

abbrev pub has_both : ℕ → Uri → Asset → Bool
has_both hash uri asset = (asset.uri_hash == hash) && same_uri asset.uri uri

module _ (𝓥 : Vault) (A : Type 0) where
  open 𝓥 use {Vec}

  pub record AssetBank : Type 0 where
    pub assets : Vec Asset
    pub store : HandleStore 𝓥 A

module _ (𝓥 : Vault) where
  open 𝓥 use {Vec, at}

  -- The loop of every search, `n` assets from index `i` on: the position of the first match.
  unfoldable pub first_from : (Asset → Bool) → Vec Asset → ℕ → ℕ → Option (Option ℕ)
  first_from test v i zero = some none
  first_from test v i (suc n) = do
    asset ← at v i
    elim (test asset) [ true ↦ some (some i) | false ↦ first_from test v (i + 1) n ]

module _ (𝓥 : Vault) {A : Type 0} where
  open 𝓥 use {Vec, size, at, push_back}

  -- A pointer to an asset is its position, `some none` is `nullptr`.
  unfoldable pub find_first : (Asset → Bool) → AssetBank 𝓥 A → Option (Option ℕ)
  find_first test b = first_from 𝓥 test b.assets 0 (size b.assets)

  abbrev pub find_uri : AssetBank 𝓥 A → Uri → Option (Option ℕ)
  find_uri b uri = find_first (has_uri uri) b

  abbrev pub find_hash : AssetBank 𝓥 A → ℕ → Option (Option ℕ)
  find_hash b hash = find_first (has_hash hash) b

  unfoldable pub find : AssetBank 𝓥 A → Handle → Option (Pointer A)
  find b handle = HandleStore.get 𝓥 b.store handle

  -- Both overloads of `get_handle`.
  unfoldable pub get_handle : (Asset → Bool) → AssetBank 𝓥 A → Option Handle
  get_handle test b = do
    found ← find_first test b
    elim found [ none ↦ some null | some i ↦ at b.assets i >>= λ asset. some asset.handle ]

  -- The part of the `add` functions behind their searches.
  unfoldable pub append : AssetBank 𝓥 A → Uri → ℕ → A → Option (AssetBank 𝓥 A × ℕ)
  append b uri hash a = do
    p ← create 𝓥 b.store a
    some (
      record {
        assets = push_back b.assets (record { uri = uri; uri_hash = hash; handle = p.1 });
        store = p.0;
      },
      size b.assets,
    )

  unfoldable pub add : AssetBank 𝓥 A → Uri → A → Option (AssetBank 𝓥 A × ℕ)
  add b uri a = do
    found ← find_uri b uri
    elim found [ some i ↦ some (b, i) | none ↦ append b uri (hash_uri uri) a ]

  -- `add_composite` with the composite hash.
  unfoldable pub add_hashed : AssetBank 𝓥 A → Uri → ℕ → A → Option (AssetBank 𝓥 A × ℕ)
  add_hashed b uri hash a = do
    found ← find_hash b hash
    elim found [
      | none ↦ append b uri hash a
      | some i ↦ at b.assets i >>= λ existing.
          if same_uri existing.uri uri then some (b, i) else append b uri hash a
    ]

  unfoldable pub add_composite_id : AssetBank 𝓥 A → Uri → ℕ → A → Option (AssetBank 𝓥 A × ℕ)
  add_composite_id b uri id a = add_hashed b uri (composite_hash_id uri id) a

  unfoldable pub add_composite_ids : AssetBank 𝓥 A → Uri → ℕ → ℕ → A → Option (AssetBank 𝓥 A × ℕ)
  add_composite_ids b uri id_0 id_1 a = add_hashed b uri (composite_hash_ids uri id_0 id_1) a

  unfoldable pub add_composite_uris : AssetBank 𝓥 A → Uri → Uri → A → Option (AssetBank 𝓥 A × ℕ)
  add_composite_uris b uri_0 uri_1 a = add_hashed b uri_0 (composite_hash_uris uri_0 uri_1) a

  unfoldable pub find_composite_id : AssetBank 𝓥 A → Uri → ℕ → Option (Option ℕ)
  find_composite_id b uri id = find_hash b (composite_hash_id uri id)

  unfoldable pub find_composite_ids : AssetBank 𝓥 A → Uri → ℕ → ℕ → Option (Option ℕ)
  find_composite_ids b uri id_0 id_1 = find_hash b (composite_hash_ids uri id_0 id_1)

  unfoldable pub find_composite_uris : AssetBank 𝓥 A → Uri → Uri → Option (Option ℕ)
  find_composite_uris b uri_0 uri_1 = find_hash b (composite_hash_uris uri_0 uri_1)

module _ (𝓥 : Vault) (𝓔 : Erasing 𝓥) {A : Type 0} where
  open 𝓥 use {size, at}

  -- The loop of the `remove` functions: it stops at the first match.
  unfoldable pub remove_first :
      (Asset → Bool) → AssetBank 𝓥 A → ℕ → ℕ → Option (AssetBank 𝓥 A × Bool)
  remove_first test b i zero = some (b, false)
  remove_first test b i (suc n) = do
    asset ← at b.assets i
    elim (test asset) [
      | true ↦ destroy 𝓥 b.store asset.handle >>= λ store.
          some (record { assets = 𝓔.erase b.assets i; store = store }, true)
      | false ↦ remove_first test b (i + 1) n
    ]

  unfoldable pub remove_where : (Asset → Bool) → AssetBank 𝓥 A → Option (AssetBank 𝓥 A × Bool)
  remove_where test b = remove_first test b 0 (size b.assets)

  unfoldable pub remove_uri : AssetBank 𝓥 A → Uri → Option (AssetBank 𝓥 A × Bool)
  remove_uri b uri = remove_where (has_uri uri) b

  unfoldable pub remove_hash : AssetBank 𝓥 A → ℕ → Option (AssetBank 𝓥 A × Bool)
  remove_hash b hash = remove_where (has_hash hash) b

  unfoldable pub remove_composite_id : AssetBank 𝓥 A → Uri → ℕ → Option (AssetBank 𝓥 A × Bool)
  remove_composite_id b uri id = remove_where (has_both (composite_hash_id uri id) uri) b

  unfoldable pub remove_composite_ids : AssetBank 𝓥 A → Uri → ℕ → ℕ → Option (AssetBank 𝓥 A × Bool)
  remove_composite_ids b uri id_0 id_1 =
      remove_where (has_both (composite_hash_ids uri id_0 id_1) uri) b

  unfoldable pub remove_composite_uris : AssetBank 𝓥 A → Uri → Uri → Option (AssetBank 𝓥 A × Bool)
  remove_composite_uris b uri_0 uri_1 =
      remove_where (has_both (composite_hash_uris uri_0 uri_1) uri_0) b
