-- ===== src/Entity/Rack/Add.antt =====
-- `Registry::add` and the capacity operations, as updates of the component map.
use hyprie.Base.{
  ℕ, ◌+◌, ◌≡◌, ◌≢◌, ◌<◌, ◌≤◌, Option, none, some, ap, ◌∙◌, arith, ltb, leb, ◌==◌, if◌then◌else◌,
  inl, inr, Bool-cases, Option-cases, Vault,
}
use hyprie.Entity.Rack.{Rack, invalid_slot, ensure_sparse_capacity, clear, add, add_at}
use hyprie.Entity.Rack.Inv.{Inv, component, present, dense_in}

module _ (𝓥 : Vault) {T : Type 0} where
  open 𝓥 use {
    Vec, size, at, empty, push_back, store, resize, truncate, at_in, at_out, size_empty,
    size_push_back, at_push_back, size_store, at_store, size_resize, at_resize, size_truncate,
    at_truncate,
  }

  abbrev grown : Rack 𝓥 T → ℕ → Rack 𝓥 T
  grown r n = record r { sparse_index = resize r.sparse_index n invalid_slot }

  grown-Inv : {r : Rack 𝓥 T} (n : ℕ) → size r.sparse_index ≤ n → Inv 𝓥 r → Inv 𝓥 (grown r n)
  grown-Inv {r} n h v = record {
    paired = v.paired;
    few = v.few;
    to_dense = λ e slot es ne.
        v.to_dense e slot (ground (arith, at_resize r.sparse_index n invalid_slot e)) ne;
    to_sparse = λ slot e es. ground (
      arith,
      at_resize r.sparse_index n invalid_slot e,
      v.to_sparse slot e es,
      at_out r.sparse_index e,
    );
  }

  grown-component :
      (r : Rack 𝓥 T) (n k : ℕ)
      → size r.sparse_index ≤ n
      → component 𝓥 (grown r n) k ≡ component 𝓥 r k
  grown-component r n k h =
      ground (arith, at_resize r.sparse_index n invalid_slot k, at_out r.sparse_index k)

  pub ensure_sparse_capacity-Inv :
      {r : Rack 𝓥 T} (capacity : ℕ) → Inv 𝓥 r → Inv 𝓥 (ensure_sparse_capacity 𝓥 r capacity)
  unfolding ensure_sparse_capacity
  ensure_sparse_capacity-Inv {r} capacity v =
      elim (Bool-cases (ltb (size r.sparse_index) capacity)) [
        | inl more ↦ rw more (grown-Inv capacity (ground arith) v)
        | inr enough ↦ rw enough v
      ]

  pub component-ensure_sparse_capacity :
      (r : Rack 𝓥 T) (capacity k : ℕ)
      → component 𝓥 (ensure_sparse_capacity 𝓥 r capacity) k ≡ component 𝓥 r k
  unfolding ensure_sparse_capacity
  component-ensure_sparse_capacity r capacity k =
      elim (Bool-cases (ltb (size r.sparse_index) capacity)) [
        | inl more ↦ rw more (grown-component r capacity k (ground arith))
        | inr enough ↦ rw enough
      ]

  -- `clear` leaves a rack with no components.
  pub clear-Inv : (r : Rack 𝓥 T) → Inv 𝓥 (clear 𝓥 r) × ((k : ℕ) → component 𝓥 (clear 𝓥 r) k ≡ none)
  unfolding clear
  clear-Inv r = (
    record {
      paired = ground (arith, size_truncate r.dense_entities 0, size_truncate r.dense_values 0);
      few = ground (arith, size_truncate r.dense_values 0);
      to_dense = λ e slot es ne. absurd (ground (arith, at_resize r.sparse_index 0 invalid_slot e));
      to_sparse = λ slot e es. absurd (ground (arith, at_truncate r.dense_entities 0 slot));
    },
    λ k. ground (arith, at_resize r.sparse_index 0 invalid_slot k),
  )

  -- What `add` does to the component map.
  pub record Added (r : Rack 𝓥 T) (e : ℕ) (t : T) (out : Option (Rack 𝓥 T)) : Type 0 where
    pub after : Rack 𝓥 T
    pub result : out ≡ some after
    pub inv : Inv 𝓥 after
    pub update : (k : ℕ) → component 𝓥 after k ≡ (if e == k then some t else component 𝓥 r k)
    pub count :
        size after.dense_values
        ≡ (if present 𝓥 (component 𝓥 r e) then size r.dense_values else size r.dense_values + 1)

  module _ {r : Rack 𝓥 T} (e : ℕ) (t : T) (v : Inv 𝓥 r) where
    add_at-new :
        size r.dense_values < invalid_slot
        → at r.sparse_index e ≡ some invalid_slot
        → Added r e t (add_at 𝓥 r e t)
    unfolding add_at
    add_at-new room h = record {
      after = record {
        dense_entities = push_back r.dense_entities e;
        dense_values = push_back r.dense_values t;
        sparse_index = store r.sparse_index e (size r.dense_values);
      };
      result = ground (arith, at_out r.sparse_index e);
      inv = record {
        paired =
            ground
              (arith, v.paired, size_push_back r.dense_entities e, size_push_back r.dense_values t);
        few = ground (arith, size_push_back r.dense_values t);
        to_dense = λ k slot es ne. ground (
          arith,
          at_store r.sparse_index e (size r.dense_values) k,
          at_out r.sparse_index e,
          at_push_back r.dense_entities e slot,
          v.to_dense k slot,
          v.paired,
          dense_in 𝓥 v k slot,
        );
        to_sparse = λ slot k es. ground (
          arith,
          at_store r.sparse_index e (size r.dense_values) k,
          at_out r.sparse_index e,
          at_push_back r.dense_entities e slot,
          v.to_sparse slot k,
          v.paired,
          at_out r.dense_entities slot,
          v.few,
        );
      };
      update = λ k. elim (Option-cases (at r.sparse_index k)) [
        | inl out ↦ ground (
          arith,
          at_store r.sparse_index e (size r.dense_values) k,
          at_out r.sparse_index e,
          at_push_back r.dense_values t (size r.dense_values),
        )
        | inr (slot, es) ↦ ground (
          arith,
          at_store r.sparse_index e (size r.dense_values) k,
          at_out r.sparse_index e,
          at_push_back r.dense_values t (size r.dense_values),
          at_push_back r.dense_values t slot,
          dense_in 𝓥 v k slot es,
        )
      ];
      count = ground (arith, size_push_back r.dense_values t);
    }

    add_at-old :
        (slot : ℕ)
        → slot ≢ invalid_slot
        → at r.sparse_index e ≡ some slot
        → Added r e t (add_at 𝓥 r e t)
    unfolding add_at
    add_at-old slot ne h = record {
      after = record r { dense_values = store r.dense_values slot t };
      result = ground (arith, dense_in 𝓥 v e slot h ne);
      inv = record {
        paired = ground (arith, v.paired, size_store r.dense_values slot t);
        few = ground (arith, v.few, size_store r.dense_values slot t);
        to_dense = v.to_dense;
        to_sparse = v.to_sparse;
      };
      update = λ k. elim (Option-cases (at r.sparse_index k)) [
        | inl out ↦ ground arith
        | inr (slot', es) ↦ ground (
          arith,
          at_store r.dense_values slot t slot',
          dense_in 𝓥 v e slot h ne,
          v.to_dense e slot h,
          v.to_dense k slot' es,
        )
      ];
      count =
          let (old, eo) = at_in r.dense_values slot (dense_in 𝓥 v e slot h ne) in
          ground (arith, size_store r.dense_values slot t);
    }

    add_at-Added :
        size r.dense_values < invalid_slot → e < size r.sparse_index → Added r e t (add_at 𝓥 r e t)
    add_at-Added room inside =
        let (slot, es) = at_in r.sparse_index e inside in
        elim (Bool-cases (slot == invalid_slot)) [
          | inl off ↦ add_at-new room (ground arith)
          | inr on ↦ add_at-old slot (ground arith) es
        ]

  -- `add` never faults while the rack has fewer than 0xFFFFFFFF components: it keeps the invariant,
  -- sets the component of its entity and of no other, and adds one element if the entity had none.
  pub add-Added :
      {r : Rack 𝓥 T} (e : ℕ) (t : T)
      → Inv 𝓥 r
      → size r.dense_values < invalid_slot
      → Added r e t (add 𝓥 r e t)
  unfolding add
  add-Added {r} e t v room = elim (Bool-cases (leb (size r.sparse_index) e)) [
    | inl out ↦
        let a =
          add_at-Added e t (grown-Inv (e + 1) (ground arith) v) room
            (omega (arith, size_resize r.sparse_index (e + 1) invalid_slot)) in
        rw out (record {
          after = a.after;
          result = a.result;
          inv = a.inv;
          update = λ k.
              a.update k
              ∙ ap (λ c. if e == k then some t else c) (grown-component r (e + 1) k (ground arith));
          count =
              a.count
              ∙ ap (λ c. if present 𝓥 c then size r.dense_values else size r.dense_values + 1)
                  (grown-component r (e + 1) e (ground arith));
        })
    | inr inside ↦ rw inside (add_at-Added e t v room (ground arith))
  ]
