-- ===== src/Entity/Rack/Inv.antt =====
-- The invariant of the sparse set, and the component that it holds for each entity.
use hyprie.Base.{
  ℕ, ◌≡◌, ◌≢◌, ◌<◌, ◌≤◌, Bool, true, false, Option, none, some, arith, ◌==◌, if◌then◌else◌, inl,
  inr, Bool-cases, Option-cases, Vault,
}
use hyprie.Entity.Rack.{Rack, invalid_slot, init, has, get}

module _ (𝓥 : Vault) {T : Type 0} where
  open 𝓥 use {
    Vec, size, at, empty, push_back, store, resize, truncate, at_in, at_out, size_empty,
    size_push_back, at_push_back, size_store, at_store, size_resize, at_resize, size_truncate,
    at_truncate,
  }

  -- Slots and dense entries name one another.
  pub record Inv (r : Rack 𝓥 T) : Type 0 where
    pub paired : size r.dense_entities ≡ size r.dense_values
    pub few : size r.dense_values ≤ invalid_slot
    pub to_dense :
        (e slot : ℕ)
        → at r.sparse_index e ≡ some slot
        → slot ≢ invalid_slot
        → at r.dense_entities slot ≡ some e
    pub to_sparse :
        (slot e : ℕ) → at r.dense_entities slot ≡ some e → at r.sparse_index e ≡ some slot

  -- The component of an entity.
  abbrev pub component : Rack 𝓥 T → ℕ → Option T
  component r e = elim (at r.sparse_index e) [
    | none ↦ none
    | some slot ↦ if slot == invalid_slot then none else at r.dense_values slot
  ]

  abbrev pub present : Option T → Bool
  present none = false
  present (some t) = true

  pub init-Inv : Inv (init 𝓥)
  init-Inv = record {
    paired = ground (arith, size_empty {A = ℕ}, size_empty {A = T});
    few = ground (arith, size_empty {A = T});
    to_dense = λ e slot h ne. absurd (ground (arith, at_out (empty {A = ℕ}) e, size_empty {A = ℕ}));
    to_sparse =
        λ slot e h. absurd (ground (arith, at_out (empty {A = ℕ}) slot, size_empty {A = ℕ}));
  }

  pub dense_in :
      {r : Rack 𝓥 T} (v : Inv r) (e slot : ℕ)
      → at r.sparse_index e ≡ some slot
      → slot ≢ invalid_slot
      → slot < size r.dense_values
  dense_in {r} v e slot h ne =
      ground (arith, v.to_dense e slot h ne, at_out r.dense_entities slot, v.paired)

  -- `get` never faults, and returns the component of the entity or `nullptr`.
  pub get-component : {r : Rack 𝓥 T} (e : ℕ) → Inv r → get 𝓥 r e ≡ some (component r e)
  unfolding get
  get-component {r} e v = elim (Option-cases (at r.sparse_index e)) [
    | inl h ↦ ground (arith, at_in r.sparse_index e)
    | inr (slot, h) ↦ elim (Bool-cases (slot == invalid_slot)) [
      | inl off ↦ ground (arith, at_out r.sparse_index e)
      | inr on ↦
          let (t, et) = at_in r.dense_values slot (dense_in v e slot h (ground arith)) in
          ground (arith, at_out r.sparse_index e)
    ]
  ]

  -- `has` never faults, and tells whether the entity has the component.
  pub has-component : {r : Rack 𝓥 T} (e : ℕ) → Inv r → has 𝓥 r e ≡ some (present (component r e))
  unfolding has
  has-component {r} e v = elim (Option-cases (at r.sparse_index e)) [
    | inl h ↦ ground (arith, at_in r.sparse_index e)
    | inr (slot, h) ↦ elim (Bool-cases (slot == invalid_slot)) [
      | inl off ↦ ground (arith, at_out r.sparse_index e)
      | inr on ↦
          let (t, et) = at_in r.dense_values slot (dense_in v e slot h (ground arith)) in
          ground (arith, at_out r.sparse_index e)
    ]
  ]
