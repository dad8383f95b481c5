-- ===== src/Resource/AssetBank/Search.antt =====
-- The searches of an asset bank find the first match.
use hyprie.Base.{
  ℕ, zero, suc, ◌+◌, ◌≡◌, ◌⊎◌, inl, inr, ◌<◌, ◌≤◌, Bool, true, false, none, some, refl, arith,
  Bool-cases, Vault, ◌==◌, [], ◌∷◌,
}
use hyprie.Resource.AssetBank.{Asset, Uri, same_uri, first_from}

-- `==` on names.
pub same_uri-eq : (u v : Uri) → same_uri u v ≡ true → u ≡ v
unfolding same_uri
same_uri-eq [] [] e = refl
same_uri-eq [] (d ∷ ds) e = absurd (ground arith)
same_uri-eq (c ∷ cs) [] e = absurd (ground arith)
same_uri-eq (c ∷ cs) (d ∷ ds) e =
    let p : c ≡ d = ground arith in
    let q : cs ≡ ds = same_uri-eq cs ds (ground arith) in ground arith

pub same_uri_refl : (u : Uri) → same_uri u u ≡ true
unfolding same_uri
same_uri_refl [] = refl
same_uri_refl (c ∷ cs) = ground (arith, same_uri_refl cs)

module _ (𝓥 : Vault) where
  open 𝓥 use {Vec, size, at, push_back, at_in, at_out, size_push_back, at_push_back}

  -- No asset from `i` on, and before `k`, passes the test.
  pub record Fails (test : Asset → Bool) (v : Vec Asset) (i k : ℕ) : Type 0 where
    pub fails : (j : ℕ) (asset : Asset) → i ≤ j → j < k → at v j ≡ some asset → test asset ≡ false

  -- The first match among the assets from `i` on.
  pub record First (test : Asset → Bool) (v : Vec Asset) (i k : ℕ) : Type 0 where
    pub asset : Asset
    pub here : at v k ≡ some asset
    pub passes : test asset ≡ true
    pub before : Fails test v i k
    pub from : i ≤ k

  pub first_from-cases :
      (test : Asset → Bool) (v : Vec Asset) (n i : ℕ)
      → i + n ≡ size v
      → ((first_from 𝓥 test v i n ≡ some none) × Fails test v i (size v))
        ⊎ ((k : ℕ) × (first_from 𝓥 test v i n ≡ some (some k)) × First test v i k)
  unfolding first_from
  first_from-cases test v zero i h =
      inl (refl, record { fails = λ j asset from to e. absurd (omega arith) })
  first_from-cases test v (suc n) i h =
      let (asset, e) = at_in v i (omega arith) in
      elim (Bool-cases (test asset)) [
        | inl passing ↦ inr (
          i,
          ground arith,
          record {
            asset = asset;
            here = e;
            passes = passing;
            before = record { fails = λ j asset' from to ej. absurd (omega arith) };
            from = omega arith;
          },
        )
        | inr failing ↦ elim (first_from-cases test v n (i + 1) (omega arith)) [
          | inl (r, f) ↦ inl (
            ground (arith, r),
            record {
              fails = λ j asset' from to ej. elim (Bool-cases (i == j)) [
                | inl same ↦ ground arith
                | inr other ↦ f.fails j asset' (ground arith) to ej
              ];
            },
          )
          | inr (k, r, f) ↦ inr (
            k,
            ground (arith, r),
            record {
              asset = f.asset;
              here = f.here;
              passes = f.passes;
              before = record {
                fails = λ j asset' from to ej. elim (Bool-cases (i == j)) [
                  | inl same ↦ ground arith
                  | inr other ↦ f.before.fails j asset' (ground arith) to ej
                ];
              };
              from = omega (arith, f.from);
            },
          )
        ]
      ]

  -- A match behind assets that all fail is the first one.
  pub first_from-push_back :
      (test : Asset → Bool) (v : Vec Asset) (asset : Asset)
      → Fails test v 0 (size v)
      → test asset ≡ true
      → first_from 𝓥 test (push_back v asset) 0 (size (push_back v asset)) ≡ some (some (size v))
  first_from-push_back test v asset f passing =
      elim (first_from-cases test (push_back v asset) (size (push_back v asset)) 0 (omega arith)) [
        | inl (r, f') ↦ absurd (
            ground (
              arith,
              f'.fails (size v) asset (omega arith) (omega (arith, size_push_back v asset)),
              at_push_back v asset (size v),
            ))
        | inr (k, r, p) ↦ ground (
          arith,
          r,
          p.here,
          p.passes,
          f.fails k p.asset,
          p.before.fails (size v) asset,
          at_push_back v asset (size v),
          at_push_back v asset k,
          at_out v k,
        )
      ]
