-- ===== src/Resource/AssetBank/Remove.antt =====
-- Removals from an asset bank.
use hyprie.Base.{
  ℕ, zero, suc, ◌+◌, ◌≡◌, ◌⊎◌, inl, inr, Bool, true, false, Option, none, some, refl, arith, ◌>>=◌,
  Vault, if◌then◌else◌,
}
use hyprie.Resource.HandleStore.{Handle, destroy}
use hyprie.Resource.HandleStore.View.{view, same, destroy_refines}
use hyprie.Resource.AssetBank.{Asset, AssetBank, Erasing, first_from, remove_first, remove_where}
use hyprie.Resource.AssetBank.Search.{Fails, First, first_from-cases}
use hyprie.Resource.AssetBank.Inv.{Inv}

module _ (𝓥 : Vault) (𝓔 : Erasing 𝓥) {A : Type 0} where
  open 𝓥 use {Vec, size, at, at_in, at_out}
  open 𝓔 use {erase, at_erase}

  -- The work on the match.
  abbrev drop_asset : AssetBank 𝓥 A → ℕ → Option (AssetBank 𝓥 A × Bool)
  drop_asset b k = at b.assets k >>= λ asset. destroy 𝓥 b.store asset.handle >>= λ store.
      some (record { assets = erase b.assets k; store = store }, true)

  abbrev drop_found : AssetBank 𝓥 A → Option ℕ → Option (AssetBank 𝓥 A × Bool)
  drop_found b none = some (b, false)
  drop_found b (some k) = drop_asset b k

  remove_first-first_from :
      (test : Asset → Bool) (b : AssetBank 𝓥 A) (n i : ℕ)
      → remove_first 𝓥 𝓔 test b i n
        ≡ (first_from 𝓥 test b.assets i n >>= λ found. drop_found b found)
  unfolding remove_first first_from
  remove_first-first_from test b zero i = refl
  remove_first-first_from test b (suc n) i =
      ground (arith, remove_first-first_from test b n (i + 1))

  -- A bank without the asset at `k`, whose object is gone. All other assets and objects stay.
  pub record Removed (b : AssetBank 𝓥 A) (k : ℕ) (asset : Asset)
      (out : Option (AssetBank 𝓥 A × Bool)) : Type 0 where
    pub after : AssetBank 𝓥 A
    pub result : out ≡ some (after, true)
    pub inv : Inv 𝓥 after
    pub assets : after.assets ≡ erase b.assets k
    pub objects :
        (h : Handle)
        → view 𝓥 after.store h ≡ (if same asset.handle h then none else view 𝓥 b.store h)

  drop_asset-Removed :
      {b : AssetBank 𝓥 A} {asset : Asset} (k : ℕ)
      → at b.assets k ≡ some asset
      → Inv 𝓥 b
      → Removed b k asset (drop_asset b k)
  drop_asset-Removed {b} {asset} k e v =
      let (s, es, vs, objects, count) = destroy_refines 𝓥 asset.handle v.store_ok in
      record {
        after = record { assets = erase b.assets k; store = s };
        result = ground (arith, e, es);
        inv = record {
          store_ok = vs;
          owns = λ i x ex. ground (
            arith,
            at_erase b.assets k i,
            at_out b.assets k,
            e,
            v.owns i x,
            v.owns (i + 1) x,
            v.apart k i asset x,
            v.apart k (i + 1) asset x,
            objects x.handle,
          );
          apart = λ i j x y ex ey sh. ground (
            arith,
            at_erase b.assets k i,
            at_erase b.assets k j,
            at_out b.assets k,
            e,
            v.apart i j x y,
            v.apart (i + 1) j x y,
            v.apart i (j + 1) x y,
            v.apart (i + 1) (j + 1) x y,
          );
        };
        assets = refl;
        objects = objects;
      }

  -- A removal never faults. Where no asset passes the test it changes nothing and returns false;
  -- else it returns true and removes the first asset that passes and the object of that asset, and
  -- nothing else.
  pub remove_where-cases :
      {b : AssetBank 𝓥 A} (test : Asset → Bool)
      → Inv 𝓥 b
      → ((remove_where 𝓥 𝓔 test b ≡ some (b, false)) × Fails 𝓥 test b.assets 0 (size b.assets))
        ⊎ ((k : ℕ) × (f : First 𝓥 test b.assets 0 k) × Removed b k f.asset
              (remove_where 𝓥 𝓔 test b))
  unfolding remove_where
  remove_where-cases {b} test v =
      elim (first_from-cases 𝓥 test b.assets (size b.assets) 0 (omega arith)) [
        | inl (r, f) ↦ inl (rw (remove_first-first_from test b (size b.assets) 0, r) refl, f)
        | inr (k, r, f) ↦ inr (
          k,
          f,
          rw (remove_first-first_from test b (size b.assets) 0, r) (drop_asset-Removed k f.here v),
        )
      ]
