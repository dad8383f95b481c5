-- ===== src/Entity/Rack/Erase.antt =====
-- `Rack::erase_entity`: swap with the last element and shrink, as an update of the component map.
use hyprie.Base.{
  ℕ, ◌+◌, ◌-◌, ◌≡◌, ◌≢◌, ◌<◌, false, Option, none, some, arith, ltb, leb, ◌==◌, if◌then◌else◌,
  ◌>>=◌, inl, inr, Bool-cases, Option-cases, Vault,
}
use hyprie.Entity.Rack.{Rack, invalid_slot, last_slot, move_last, drop_last, erase_entity}
use hyprie.Entity.Rack.Inv.{Inv, component, present, dense_in}

module _ (𝓥 : Vault) {T : Type 0} where
  open 𝓥 use {
    Vec, size, at, store, truncate, at_in, at_out, size_store, at_store, size_truncate, at_truncate,
  }

  pub record Erased (r : Rack 𝓥 T) (e : ℕ) (out : Option (Rack 𝓥 T)) : Type 0 where
    pub after : Rack 𝓥 T
    pub result : out ≡ some after
    pub inv : Inv 𝓥 after
    pub update : (k : ℕ) → component 𝓥 after k ≡ (if e == k then none else component 𝓥 r k)
    pub count :
        size after.dense_values + (if present 𝓥 (component 𝓥 r e) then 1 else 0)
        ≡ size r.dense_values

  module _ {r : Rack 𝓥 T} (e slot : ℕ) (v : Inv 𝓥 r) (h : at r.sparse_index e ≡ some slot)
      (on : slot ≢ invalid_slot) where
    abbrev last : ℕ
    last = size r.dense_values - 1

    last_slot-eq : last_slot 𝓥 r ≡ last
    last_slot-eq = omega (arith, v.few, dense_in 𝓥 v e slot h on)

    here : at r.dense_entities slot ≡ some e
    here = v.to_dense e slot h on

    value_here : (t : T) × (at r.dense_values slot ≡ some t)
    value_here = at_in r.dense_values slot (dense_in 𝓥 v e slot h on)

    -- The slot is the last one.
    drop_last-Erased : slot ≡ last → Erased r e (drop_last 𝓥 r e last)
    unfolding drop_last
    drop_last-Erased is_last = record {
      after = record {
        dense_entities = truncate r.dense_entities last;
        dense_values = truncate r.dense_values last;
        sparse_index = store r.sparse_index e invalid_slot;
      };
      result = ground (arith, at_out r.sparse_index e, h);
      inv = record {
        paired = omega (
          arith,
          v.paired,
          size_truncate r.dense_entities last,
          size_truncate r.dense_values last,
        );
        few = omega (arith, v.few, size_truncate r.dense_values last);
        to_dense = λ k s es ne. ground (
          arith,
          at_store r.sparse_index e invalid_slot k,
          at_out r.sparse_index e,
          h,
          here,
          v.paired,
          v.to_dense k s,
          dense_in 𝓥 v k s,
          at_truncate r.dense_entities last s,
        );
        to_sparse = λ s k es. ground (
          arith,
          at_store r.sparse_index e invalid_slot k,
          at_out r.sparse_index e,
          h,
          v.paired,
          v.to_sparse s k,
          at_truncate r.dense_entities last s,
        );
      };
      update = λ k. elim (Option-cases (at r.sparse_index k)) [
        | inl out ↦
            ground (arith, at_store r.sparse_index e invalid_slot k, at_out r.sparse_index e, h)
        | inr (s, es) ↦ ground (
          arith,
          at_store r.sparse_index e invalid_slot k,
          at_out r.sparse_index e,
          h,
          here,
          v.to_dense k s es,
          dense_in 𝓥 v k s es,
          at_truncate r.dense_values last s,
        )
      ];
      count =
          let (t, et) = value_here in
          ground (arith, h, size_truncate r.dense_values last, dense_in 𝓥 v e slot h on);
    }

    -- The last element, of entity `m` with value `t`, moves into the slot.
    module _ (m : ℕ) (t : T) (em : at r.dense_entities last ≡ some m)
        (et : at r.dense_values last ≡ some t) (ne : slot ≢ last) where
      abbrev moved : Rack 𝓥 T
      moved = record {
        dense_entities = truncate (store r.dense_entities slot m) last;
        dense_values = truncate (store r.dense_values slot t) last;
        sparse_index = store (store r.sparse_index m slot) e invalid_slot;
      }

      -- The sparse entries after the move.
      at-sparse_moved :
          (k : ℕ)
          → at moved.sparse_index k ≡ (
              if e == k
              then some invalid_slot
              else if m == k
              then some slot
              else at r.sparse_index k)
      at-sparse_moved k = ground (
        arith,
        at_store r.sparse_index m slot k,
        at_store (store r.sparse_index m slot) e invalid_slot k,
        size_store r.sparse_index m slot,
        at_out r.sparse_index e,
        at_out r.sparse_index m,
        v.to_sparse last m em,
        h,
      )

      inside : (slot < last) × (last < size r.dense_values)
      inside = omega (arith, dense_in 𝓥 v e slot h on)

      at-entities_moved :
          (s : ℕ)
          → at moved.dense_entities s
            ≡ (if ltb s last then if slot == s then some m else at r.dense_entities s else none)
      at-entities_moved s = ground (
        arith,
        at_store r.dense_entities slot m s,
        at_truncate (store r.dense_entities slot m) last s,
        size_store r.dense_entities slot m,
        inside,
        v.paired,
      )

      at-values_moved :
          (s : ℕ)
          → at moved.dense_values s
            ≡ (if ltb s last then if slot == s then some t else at r.dense_values s else none)
      at-values_moved s = ground (
        arith,
        at_store r.dense_values slot t s,
        at_truncate (store r.dense_values slot t) last s,
        size_store r.dense_values slot t,
        inside,
      )

      other : m ≢ e
      other q = ground (arith, v.to_sparse last m em, h)

      moved-Inv : Inv 𝓥 moved
      moved-Inv = record {
        paired = omega (
          arith,
          inside,
          v.paired,
          size_store r.dense_entities slot m,
          size_store r.dense_values slot t,
          size_truncate (store r.dense_entities slot m) last,
          size_truncate (store r.dense_values slot t) last,
        );
        few = omega (
          arith,
          inside,
          v.few,
          size_store r.dense_values slot t,
          size_truncate (store r.dense_values slot t) last,
        );
        to_dense = λ k s es ns. ground (
          arith,
          at-sparse_moved k,
          at-entities_moved s,
          inside,
          v.to_dense k s,
          dense_in 𝓥 v k s,
          em,
          here,
        );
        to_sparse = λ s k es. ground (
          arith,
          at-sparse_moved k,
          at-entities_moved s,
          inside,
          other,
          v.to_sparse s k,
          v.to_sparse last m em,
          h,
        );
      }

      moved-component : (k : ℕ) → component 𝓥 moved k ≡ (if e == k then none else component 𝓥 r k)
      moved-component k = elim (Option-cases (at r.sparse_index k)) [
        | inl out ↦ ground (arith, at-sparse_moved k, v.to_sparse last m em)
        | inr (s, es) ↦ ground (
          arith,
          at-sparse_moved k,
          at-values_moved s,
          at-values_moved slot,
          inside,
          v.to_sparse last m em,
          v.to_dense k s es,
          dense_in 𝓥 v k s es,
          here,
          em,
          et,
          on,
        )
      ]

      moved-result : (move_last 𝓥 r slot last >>= λ r'. drop_last 𝓥 r' e last) ≡ some moved
      unfolding move_last drop_last
      moved-result = ground (
        arith,
        em,
        et,
        inside,
        v.paired,
        at_store r.dense_entities slot m slot,
        at_out r.sparse_index e,
        at_out r.sparse_index m,
        v.to_sparse last m em,
        h,
        size_store r.sparse_index m slot,
      )

      moved-Erased : Erased r e (move_last 𝓥 r slot last >>= λ r'. drop_last 𝓥 r' e last)
      moved-Erased = record {
        after = moved;
        result = moved-result;
        inv = moved-Inv;
        update = moved-component;
        count =
            let (t', et') = value_here in
            ground (
              arith,
              h,
              inside,
              size_store r.dense_values slot t,
              size_truncate (store r.dense_values slot t) last,
            );
      }

    erase_slot-Erased : Erased r e (
        if slot == last
        then drop_last 𝓥 r e last
        else (move_last 𝓥 r slot last >>= λ r'. drop_last 𝓥 r' e last))
    erase_slot-Erased = elim (Bool-cases (slot == last)) [
      | inl is_last ↦ rw is_last (drop_last-Erased (ground arith))
      | inr ne ↦
          let (m, em) =
            at_in r.dense_entities last (omega (arith, v.paired, dense_in 𝓥 v e slot h on)) in
          let (t, et) = at_in r.dense_values last (omega (arith, dense_in 𝓥 v e slot h on)) in
          rw ne (moved-Erased m t em et (ground arith))
    ]

  -- `erase_entity` never faults: it keeps the invariant, takes away the component of its entity and
  -- of no other, and removes one element if the entity had one.
  pub erase_entity-Erased : {r : Rack 𝓥 T} (e : ℕ) → Inv 𝓥 r → Erased r e (erase_entity 𝓥 r e)
  unfolding erase_entity
  erase_entity-Erased {r} e v = elim (Option-cases (at r.sparse_index e)) [
    | inl out ↦ record {
      after = r;
      result = ground (arith, at_in r.sparse_index e);
      inv = v;
      update = λ k. ground arith;
      count = ground arith;
    }
    | inr (slot, h) ↦ elim (Bool-cases (slot == invalid_slot)) [
      | inl off ↦ record {
        after = r;
        result = ground (arith, at_out r.sparse_index e);
        inv = v;
        update = λ k. ground arith;
        count = ground arith;
      }
      | inr on ↦
          let within : leb (size r.sparse_index) e ≡ false =
            ground (arith, at_out r.sparse_index e) in
          rw (within, h, on, last_slot-eq e slot v h (ground arith))
            (erase_slot-Erased e slot v h (ground arith))
    ]
  ]
