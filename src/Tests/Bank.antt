-- ===== src/Tests/Bank.antt =====
-- Asset banks over lists.
use hyprie.Base.{
  ℕ, zero, suc, ◌+◌, ◌≡◌, ◌⊎◌, ◌<◌, true, false, some, none, [], ◌∷◌, List, refl, arith, list_vault,
  get_elem?, length, ltb, if◌then◌else◌,
}
use mathlib.Core.Option.{some-injective}
use hyprie.Resource.HandleStore.Inv.{lives}
use hyprie.Resource.HandleStore.View.{view}
use hyprie.Resource.AssetBank.{
  Asset, AssetBank, Erasing, Uri, add, add_hashed, hash_uri, composite_hash_id, has_uri, find_uri,
  find_hash, remove_where,
}
use hyprie.Resource.AssetBank.Search.{Fails, First}
use hyprie.Resource.AssetBank.Inv.{Inv, shared}
use hyprie.Resource.AssetBank.Add.{Appended, Unnamed, add-cases, add_hashed-cases}
use hyprie.Resource.AssetBank.Remove.{Removed, remove_where-cases}
use hyprie.Tests.Store.{one_object, first, one_object-Inv}

module _ {A : Type 0} where
  abbrev erase_list : List A → ℕ → List A
  erase_list [] i = []
  erase_list (x ∷ xs) zero = xs
  erase_list (x ∷ xs) (suc i) = x ∷ erase_list xs i

  length-erase_list : (v : List A) (i : ℕ) → i < length v → length (erase_list v i) + 1 ≡ length v
  length-erase_list [] i h = absurd (omega arith)
  length-erase_list (x ∷ xs) zero h = omega arith
  length-erase_list (x ∷ xs) (suc i) h = omega (arith, length-erase_list xs i (omega arith))

  get_elem?-erase_list :
      (v : List A) (i j : ℕ)
      → i < length v
      → get_elem? (erase_list v i) j ≡ (if ltb j i then get_elem? v j else get_elem? v (j + 1))
  get_elem?-erase_list [] i j h = absurd (omega arith)
  get_elem?-erase_list (x ∷ xs) zero j h = ground arith
  get_elem?-erase_list (x ∷ xs) (suc i) zero h = ground arith
  get_elem?-erase_list (x ∷ xs) (suc i) (suc j) h =
      ground (arith, get_elem?-erase_list xs i j (omega arith))

abbrev list_erasing : Erasing list_vault
list_erasing = record {
  erase = erase_list;
  size_erase = length-erase_list;
  at_erase = get_elem?-erase_list;
}

-- The name "ab".
abbrev ab : Uri
ab = 97 ∷ 98 ∷ []

abbrev named : Asset
named = record { uri = ab; uri_hash = hash_uri ab; handle = first }

abbrev bank : AssetBank list_vault ℕ
bank = record { assets = named ∷ []; store = one_object }

bank-owns :
    (i : ℕ) (asset : Asset)
    → get_elem? bank.assets i ≡ some asset
    → lives (view list_vault one_object asset.handle) ≡ true
bank-owns zero asset e = ground (arith, some-injective _ _ e)
bank-owns (suc i) asset e = absurd (ground arith)

bank-apart :
    (i j : ℕ) (a c : Asset)
    → get_elem? bank.assets i ≡ some a
    → get_elem? bank.assets j ≡ some c
    → shared a c ≡ true
    → i ≡ j
bank-apart zero zero a c ea ec s = refl
bank-apart (suc i) j a c ea ec s = absurd (ground arith)
bank-apart zero (suc j) a c ea ec s = absurd (ground arith)

bank-Inv : Inv list_vault bank
bank-Inv = record { store_ok = one_object-Inv; owns = bank-owns; apart = bank-apart }

-- The empty name is not in the bank.
add-cases_example :
    ((k : ℕ) × (asset : Asset) × (find_uri list_vault bank [] ≡ some (some k))
      × (get_elem? bank.assets k ≡ some asset)
      × (asset.uri ≡ [])
      × (add list_vault bank [] 9 ≡ some (bank, k)))
    ⊎ ((find_uri list_vault bank [] ≡ some none)
        × (p : Appended list_vault bank [] (hash_uri []) 9 (add list_vault bank [] 9)) × (find_uri
              list_vault p.after []
            ≡ some (some 1)))
add-cases_example = add-cases list_vault [] 9 bank-Inv (λ _. omega arith)

add_hashed-cases_example :
    ((k : ℕ) × (asset : Asset) × (find_hash list_vault bank (composite_hash_id ab 3)
        ≡ some (some k))
      × (get_elem? bank.assets k ≡ some asset)
      × (asset.uri ≡ ab)
      × (asset.uri_hash ≡ composite_hash_id ab 3)
      × (add_hashed list_vault bank ab (composite_hash_id ab 3) 9 ≡ some (bank, k)))
    ⊎ (Unnamed list_vault bank ab (composite_hash_id ab 3)
        × (p : Appended list_vault bank ab
            (composite_hash_id ab 3)
            9
            (add_hashed list_vault bank ab (composite_hash_id ab 3) 9))
        × (find_hash list_vault bank (composite_hash_id ab 3) ≡ some none
            → find_hash list_vault p.after (composite_hash_id ab 3) ≡ some (some 1)))
add_hashed-cases_example =
    add_hashed-cases list_vault ab (composite_hash_id ab 3) 9 bank-Inv (λ _. omega arith)

remove_where-cases_example :
    ((remove_where list_vault list_erasing (has_uri ab) bank ≡ some (bank, false))
      × Fails list_vault (has_uri ab) bank.assets 0 1)
    ⊎ ((k : ℕ) × (f : First list_vault (has_uri ab) bank.assets 0 k) × Removed list_vault
          list_erasing bank k f.asset
          (remove_where list_vault list_erasing (has_uri ab) bank))
remove_where-cases_example = remove_where-cases list_vault list_erasing (has_uri ab) bank-Inv
