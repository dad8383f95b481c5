-- ===== src/Resource/HandleStore/Create.antt =====
-- `HandleStore::create`: it never faults, and it keeps the invariant.
use hyprie.Base.{
  ℕ, ◌+◌, ◌-◌, ◌≡◌, ◌≢◌, ◌⊎◌, inl, inr, ◌<◌, ◌≤◌, Bool, false, Option, none, some, refl, arith,
  Bool-cases, ltb, invalid_u32, Vault, total_all-push_back,
}
use hyprie.Resource.HandleStore.{Slot, HandleStore, fresh_slot, create}
use hyprie.Resource.HandleStore.Inv.{
  status, weight, Inv, Reserved, filled, handle_to, create_at_lem,
}

pub status-eq :
    {A : Type 0} (o : Option (Slot A)) {b : Bool}
    → status o ≡ some b
    → (sl : Slot A) × (o ≡ some sl) × (sl.active ≡ b)
status-eq none e = ground arith
status-eq (some sl) e = (sl, refl, ground arith)

module _ (𝓥 : Vault) {A : Type 0} where
  open 𝓥 use {
    Vec, size, at, push_back, pop_back, at_in, at_out, size_push_back, at_push_back, size_pop_back,
    at_pop_back,
  }

  module _ {s : HandleStore 𝓥 A} (v : Inv 𝓥 s) where
    -- The index from the back of `m_freed`.
    pop_freed-Reserved :
        (i : ℕ) (slot : Slot A)
        → 0 < size s.freed
        → at s.freed (size s.freed - 1) ≡ some i
        → at s.slots i ≡ some slot
        → slot.active ≡ false
        → Reserved 𝓥 (record s { freed = pop_back s.freed }) i slot
    pop_freed-Reserved i slot h e es dead = record {
      slot_ok = v.slot_ok;
      here = es;
      dead = dead;
      inside = ground (arith, at_out s.slots i);
      freed_dead = λ k j ek. v.freed_dead k j (ground (arith, at_pop_back s.freed k));
      freed_ne = λ k ek. ground (arith, at_pop_back s.freed k, v.freed_once k (size s.freed - 1) i);
      freed_once = λ j k m ej ek.
          v.freed_once j k m (ground (arith, at_pop_back s.freed j))
            (ground (arith, at_pop_back s.freed k));
      dead_freed = λ j ne ej.
          let (k, ek) = v.dead_freed j ej in
          (k, ground (arith, at_pop_back s.freed k, at_out s.freed k, h));
      count = v.count;
      complement = ground (arith, size_pop_back s.freed, v.complement);
      small = v.small;
    }

    -- A new slot at the end.
    push_slot-Reserved :
        at s.freed 0 ≡ none
        → size s.freed ≡ 0
        → size s.slots < invalid_u32
        → Reserved 𝓥 (record s { slots = push_back s.slots fresh_slot }) (size s.slots) fresh_slot
    push_slot-Reserved e0 e room = record {
      slot_ok = λ i sl ei. record {
        word = ground (arith, at_push_back s.slots fresh_slot i, v.slot_ok i sl);
        parity = ground (arith, at_push_back s.slots fresh_slot i, v.slot_ok i sl);
        alive = ground (arith, at_push_back s.slots fresh_slot i, v.slot_ok i sl);
      };
      here = ground (arith, at_push_back s.slots fresh_slot (size s.slots));
      dead = refl;
      inside = ground (arith, size_push_back s.slots fresh_slot);
      freed_dead = λ k j ek. ground (arith, at_out s.freed k);
      freed_ne = λ k ek. ground (arith, at_out s.freed k);
      freed_once = λ j k m ej ek. ground (arith, at_out s.freed k);
      dead_freed = λ j ne ej. v.dead_freed j (ground (arith, at_push_back s.slots fresh_slot j));
      count = ground (arith, v.count, total_all-push_back 𝓥 weight s.slots fresh_slot);
      complement = ground (arith, v.complement, size_push_back s.slots fresh_slot);
      small = ground (arith, size_push_back s.slots fresh_slot);
    }

  -- What `create` does: it takes a reserved slot, in a store that differs from `s` there at most,
  -- and fills it.
  pub record Created (s : HandleStore 𝓥 A) (a : A) : Type 0 where
    pub mid : HandleStore 𝓥 A
    pub index : ℕ
    pub slot : Slot A
    pub reserved : Reserved 𝓥 mid index slot
    pub result : create 𝓥 s a ≡ some (filled 𝓥 mid index slot a, handle_to 𝓥 index slot)
    pub others : (j : ℕ) → j ≢ index → at mid.slots j ≡ at s.slots j
    pub before : (at s.slots index ≡ some slot) ⊎ (size s.slots ≤ index)
    pub grows : (size s.slots ≤ size mid.slots) × (size mid.slots ≤ size s.slots + 1)
    pub counts : mid.active_count ≡ s.active_count

  pub create-Created :
      {s : HandleStore 𝓥 A} (a : A)
      → Inv 𝓥 s
      → (size s.freed ≡ 0 → size s.slots < invalid_u32)
      → Created s a
  unfolding create
  create-Created {s} a v room = elim (Bool-cases (ltb 0 (size s.freed))) [
    | inl some_freed ↦
        let (i, ei) = 𝓥.at_in s.freed (size s.freed - 1) (ground arith) in
        let (slot, es, dead) = status-eq (at s.slots i) (v.freed_dead _ i ei) in
        let r = pop_freed-Reserved v i slot (ground arith) ei es dead in
        record {
          mid = _;
          index = i;
          slot = slot;
          reserved = r;
          result = ground (arith, create_at_lem 𝓥 a r);
          others = λ j ne. refl;
          before = inl es;
          grows = omega arith;
          counts = refl;
        }
    | inr none_freed ↦
        let r =
          push_slot-Reserved v (at_out s.freed 0 (ground arith)) (ground arith)
            (room (ground arith)) in
        record {
          mid = _;
          index = _;
          slot = _;
          reserved = r;
          result = ground (arith, create_at_lem 𝓥 a r);
          others = λ j ne. ground (arith, at_push_back s.slots fresh_slot j);
          before = inr (omega arith);
          grows = omega (arith, size_push_back s.slots fresh_slot);
          counts = refl;
        }
  ]
