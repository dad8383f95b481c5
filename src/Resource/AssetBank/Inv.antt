-- ===== src/Resource/AssetBank/Inv.antt =====
-- The invariant of an asset bank: its assets own distinct objects of the store.
use hyprie.Base.{ℕ, ◌≡◌, Bool, true, some, Vault}
use hyprie.Resource.HandleStore.Inv as StoreInv
use hyprie.Resource.HandleStore.Inv.{lives}
use hyprie.Resource.HandleStore.View.{view, same}
use hyprie.Resource.AssetBank.{Asset, AssetBank}

-- The two assets have one handle.
abbrev pub shared : Asset → Asset → Bool
shared a b = same a.handle b.handle

module _ (𝓥 : Vault) {A : Type 0} where
  open 𝓥 use {at}

  -- Every asset's handle stands for an object, and no two assets share one.
  pub record Inv (b : AssetBank 𝓥 A) : Type 0 where
    pub store_ok : StoreInv.Inv 𝓥 b.store
    pub owns :
        (i : ℕ) (asset : Asset)
        → at b.assets i ≡ some asset
        → lives (view 𝓥 b.store asset.handle) ≡ true
    pub apart :
        (i j : ℕ) (a c : Asset)
        → at b.assets i ≡ some a
        → at b.assets j ≡ some c
        → shared a c ≡ true
        → i ≡ j
