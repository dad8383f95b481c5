-- ===== src/Resource/AssetBank/Add.antt =====
-- Additions to an asset bank.
use hyprie.Base.{
  ℕ, ◌≡◌, ◌≢◌, ◌⊎◌, inl, inr, ◌<◌, Bool, true, Option, none, some, refl, arith, ◌∙◌, ap, Bool-cases,
  Vault, if◌then◌else◌, invalid_u32,
}
use hyprie.Resource.HandleStore.{Handle}
use hyprie.Resource.HandleStore.View.{view, same, create_refines}
use hyprie.Resource.AssetBank.{
  Asset, AssetBank, Uri, same_uri, has_uri, has_hash, hash_uri, first_from, find_first, find_uri,
  find_hash, append, add, add_hashed,
}
use hyprie.Resource.AssetBank.Search.{
  same_uri-eq, same_uri_refl, Fails, first_from-cases, first_from-push_back,
}
use hyprie.Resource.AssetBank.Inv.{Inv}

module _ (𝓥 : Vault) {A : Type 0} where
  open 𝓥 use {Vec, size, at, push_back, at_in, at_out, size_push_back, at_push_back}

  -- The store has a free slot, or room for one more.
  abbrev pub Room : AssetBank 𝓥 A → Type 0
  Room b = size b.store.freed ≡ 0 → size b.store.slots < invalid_u32

  -- A bank with one more asset, which owns a new object. All other objects stay.
  pub record Appended (b : AssetBank 𝓥 A) (uri : Uri) (hash : ℕ) (a : A)
      (out : Option (AssetBank 𝓥 A × ℕ)) : Type 0 where
    pub after : AssetBank 𝓥 A
    pub asset : Asset
    pub result : out ≡ some (after, size b.assets)
    pub inv : Inv 𝓥 after
    pub assets : after.assets ≡ push_back b.assets asset
    pub named : (asset.uri ≡ uri) × (asset.uri_hash ≡ hash)
    pub fresh : view 𝓥 b.store asset.handle ≡ none
    pub objects :
        (h : Handle)
        → view 𝓥 after.store h ≡ (if same asset.handle h then some a else view 𝓥 b.store h)

  pub append-Appended :
      {b : AssetBank 𝓥 A} (uri : Uri) (hash : ℕ) (a : A)
      → Inv 𝓥 b
      → Room b
      → Appended b uri hash a (append 𝓥 b uri hash a)
  unfolding append
  append-Appended {b} uri hash a v room =
      let (s, h, e, vs, valid, unused, objects, count) = create_refines 𝓥 a v.store_ok room in
      let asset : Asset = record { uri = uri; uri_hash = hash; handle = h } in
      record {
        after = record { assets = push_back b.assets asset; store = s };
        asset = asset;
        result = ground (arith, e);
        inv = record {
          store_ok = vs;
          owns =
              λ i x ex. ground (arith, at_push_back b.assets asset i, v.owns i x, objects x.handle);
          apart = λ i j x y ex ey sh. ground (
            arith,
            at_push_back b.assets asset i,
            at_push_back b.assets asset j,
            v.owns i x,
            v.owns j y,
            v.apart i j x y,
            unused,
          );
        };
        assets = refl;
        named = (refl, refl);
        fresh = unused;
        objects = objects;
      }

  Appended-of :
      {b : AssetBank 𝓥 A} {uri : Uri} {hash : ℕ} {a : A} {out out' : Option (AssetBank 𝓥 A × ℕ)}
      → out' ≡ out
      → Appended b uri hash a out
      → Appended b uri hash a out'
  Appended-of e p = record {
    after = p.after;
    asset = p.asset;
    result = e ∙ p.result;
    inv = p.inv;
    assets = p.assets;
    named = p.named;
    fresh = p.fresh;
    objects = p.objects;
  }

  find-Appended :
      {b : AssetBank 𝓥 A} {uri : Uri} {hash : ℕ} {a : A} {out : Option (AssetBank 𝓥 A × ℕ)}
      (test : Asset → Bool) (p : Appended b uri hash a out)
      → Fails 𝓥 test b.assets 0 (size b.assets)
      → test p.asset ≡ true
      → find_first 𝓥 test p.after ≡ some (some (size b.assets))
  unfolding find_first
  find-Appended {b} test p f passing =
      ap (λ v. first_from 𝓥 test v 0 (size v)) p.assets
      ∙ first_from-push_back 𝓥 test b.assets p.asset f passing

  -- What `add` does for a name: an asset of that name is the one that is returned, and no object
  -- is made; else there is one more, which the next search for the name finds.
  pub add-cases :
      {b : AssetBank 𝓥 A} (uri : Uri) (a : A)
      → Inv 𝓥 b
      → Room b
      → ((k : ℕ) × (asset : Asset) × (find_uri 𝓥 b uri ≡ some (some k))
          × (at b.assets k ≡ some asset)
          × (asset.uri ≡ uri)
          × (add 𝓥 b uri a ≡ some (b, k)))
        ⊎ ((find_uri 𝓥 b uri ≡ some none)
            × (p : Appended b uri (hash_uri uri) a (add 𝓥 b uri a)) × (find_uri 𝓥 p.after uri
                ≡ some (some (size b.assets))))
  unfolding add find_first
  add-cases {b} uri a v room =
      elim (first_from-cases 𝓥 (has_uri uri) b.assets (size b.assets) 0 (omega arith)) [
        | inr (k, r, p) ↦
            inl (k, p.asset, r, p.here, same_uri-eq p.asset.uri uri p.passes, ground (arith, r))
        | inl (r, f) ↦
            let p = Appended-of (ground (arith, r)) (append-Appended uri (hash_uri uri) a v room) in
            inr (
              r,
              p,
              find-Appended (has_uri uri) p f
                  (ap (λ u. same_uri u uri) p.named.0 ∙ same_uri_refl uri),
            )
      ]

  -- The first asset of a hash has another name, or there is none of the hash.
  abbrev pub Unnamed : AssetBank 𝓥 A → Uri → ℕ → Type 0
  Unnamed b uri hash =
      (find_hash 𝓥 b hash ≡ some none)
      ⊎ ((k : ℕ) × (asset : Asset) × (find_hash 𝓥 b hash ≡ some (some k))
          × (at b.assets k ≡ some asset)
          × (asset.uri ≢ uri))

  -- What `add_composite` does for a name and a composite hash. If the first asset of that hash has the
  -- name, it is the one that is returned, and no object is made. If the first asset of that hash has
  -- another name, or no asset has the hash, there is one more asset, with a new object, and in the
  -- second case the next search for the hash finds it.
  pub add_hashed-cases :
      {b : AssetBank 𝓥 A} (uri : Uri) (hash : ℕ) (a : A)
      → Inv 𝓥 b
      → Room b
      → ((k : ℕ) × (asset : Asset) × (find_hash 𝓥 b hash ≡ some (some k))
          × (at b.assets k ≡ some asset)
          × (asset.uri ≡ uri)
          × (asset.uri_hash ≡ hash)
          × (add_hashed 𝓥 b uri hash a ≡ some (b, k)))
        ⊎ (Unnamed b uri hash
            × (p : Appended b uri hash a (add_hashed 𝓥 b uri hash a)) × (find_hash 𝓥 b hash
                  ≡ some none
                → find_hash 𝓥 p.after hash ≡ some (some (size b.assets))))
  unfolding add_hashed find_first
  add_hashed-cases {b} uri hash a v room =
      let p = append-Appended uri hash a v room in
      elim (first_from-cases 𝓥 (has_hash hash) b.assets (size b.assets) 0 (omega arith)) [
        | inl (r, f) ↦
            let p' = Appended-of (ground (arith, r)) p in
            inr (inl r, p', λ e. find-Appended (has_hash hash) p' f (ground (arith, p'.named.1)))
        | inr (k, r, q) ↦ elim (Bool-cases (same_uri q.asset.uri uri)) [
          | inl named ↦ inl (
            k,
            q.asset,
            r,
            q.here,
            same_uri-eq q.asset.uri uri named,
            ground (arith, q.passes),
            ground (arith, r, q.here),
          )
          | inr other ↦
              let unlike : q.asset.uri ≢ uri =
                λ e. ground (arith, ap (λ u. same_uri u uri) e, same_uri_refl uri) in
              inr (
                inr (k, q.asset, r, q.here, unlike),
                Appended-of (ground (arith, r, q.here)) p,
                λ e. absurd (ground (arith, r)),
              )
        ]
      ]
