-- ===== src/Resource/HandleStore/Destroy.antt =====
-- `HandleStore::destroy`: it never faults, and it keeps the invariant.
use hyprie.Base.{
  ℕ, ◌+◌, ◌≡◌, ◌≢◌, ◌⊎◌, inl, inr, ◌<◌, true, false, ◌&&◌, none, some, arith, Bool-cases,
  Option-cases, ◌==◌, u32, Vault, total_all-store, total-ge,
}
use hyprie.Resource.HandleStore.{Handle, Slot, HandleStore, destruct, destroy}
use hyprie.Resource.HandleStore.Inv.{SlotOk, status, weight, resolves, Inv}

module _ (𝓥 : Vault) {A : Type 0} where
  open 𝓥 use {
    Vec, size, at, push_back, store, at_in, at_out, size_push_back, at_push_back, size_store,
    at_store,
  }

  -- The handle names an active slot of its generation.
  pub record Resolves (s : HandleStore 𝓥 A) (h : Handle) (slot : Slot A) : Type 0 where
    pub here : at s.slots h.index ≡ some slot
    pub active : slot.active ≡ true
    pub current : slot.magic ≡ h.magic

  -- The state after a `destroy` that passes its three guards.
  abbrev pub dead_slot : Slot A → Slot A
  dead_slot slot = record { storage = none; magic = u32 (slot.magic + 1); active = false }

  abbrev pub emptied : HandleStore 𝓥 A → Handle → Slot A → HandleStore 𝓥 A
  emptied s h slot = record {
    slots = store s.slots h.index (dead_slot slot);
    freed = push_back s.freed h.index;
    active_count = u32 (s.active_count + 4294967295);
  }

  pub destroy-cases :
      (s : HandleStore 𝓥 A) (h : Handle)
      → ((resolves (at s.slots h.index) h ≡ false) × (destroy 𝓥 s h ≡ some s))
        ⊎ ((slot : Slot A) × Resolves s h slot × (destroy 𝓥 s h ≡ some (emptied s h slot)))
  unfolding destroy destruct
  destroy-cases s h = elim (Option-cases (at s.slots h.index)) [
    | inl e ↦ inl (ground arith, ground (arith, at_in s.slots h.index))
    | inr (slot, e) ↦ elim (Bool-cases (slot.active && (slot.magic == h.magic))) [
      | inl live ↦ inr (
        slot,
        record { here = e; active = ground arith; current = ground arith },
        ground (arith, at_out s.slots h.index),
      )
      | inr dead ↦ inl (ground arith, ground (arith, at_out s.slots h.index))
    ]
  ]

  module _ {s : HandleStore 𝓥 A} {h : Handle} {slot : Slot A} (v : Inv 𝓥 s)
      (r : Resolves s h slot) where
    abbrev after : Vec (Slot A)
    after = store s.slots h.index (dead_slot slot)

    inside : h.index < size s.slots
    inside = ground (arith, at_out s.slots h.index, r.here)

    after-SlotOk : (i : ℕ) (sl : Slot A) → at after i ≡ some sl → SlotOk sl
    after-SlotOk i sl e = record {
      word = ground (arith, at_store s.slots h.index (dead_slot slot) i, inside, v.slot_ok i sl);
      parity = ground (
        arith,
        at_store s.slots h.index (dead_slot slot) i,
        inside,
        v.slot_ok i sl,
        v.slot_ok h.index slot r.here,
        r.active,
      );
      alive = ground (arith, at_store s.slots h.index (dead_slot slot) i, inside, v.slot_ok i sl);
    }

    not_freed : (k : ℕ) → at s.freed k ≢ some h.index
    not_freed k e = ground (arith, v.freed_dead k h.index, r.here, r.active)

    after-freed_once :
        (j k i : ℕ)
        → at (push_back s.freed h.index) j ≡ some i
        → at (push_back s.freed h.index) k ≡ some i
        → j ≡ k
    after-freed_once j k i ej ek = ground (
      arith,
      at_push_back s.freed h.index j,
      at_push_back s.freed h.index k,
      v.freed_once j k i,
      not_freed j,
      not_freed k,
    )

    after-dead_freed :
        (i : ℕ)
        → status (at after i) ≡ some false
        → (k : ℕ) × (at (push_back s.freed h.index) k ≡ some i)
    after-dead_freed i e = elim (Bool-cases (h.index == i)) [
      | inl same ↦ (size s.freed, ground (arith, at_push_back s.freed h.index (size s.freed)))
      | inr other ↦
          let (k, ek) =
            v.dead_freed i (ground (arith, at_store s.slots h.index (dead_slot slot) i, inside)) in
          (k, ground (arith, at_push_back s.freed h.index k, at_out s.freed k))
    ]

    positive : 0 < s.active_count
    positive =
        ground (
          arith,
          v.count,
          total-ge 𝓥 weight s.slots h.index (size s.slots),
          inside,
          r.here,
          r.active,
        )

    pub emptied-Inv : Inv 𝓥 (emptied s h slot)
    emptied-Inv = record {
      slot_ok = after-SlotOk;
      freed_dead = λ k i e. ground (
        arith,
        at_push_back s.freed h.index k,
        at_store s.slots h.index (dead_slot slot) i,
        inside,
        v.freed_dead k i,
      );
      freed_once = after-freed_once;
      dead_freed = after-dead_freed;
      count = ground (
        arith,
        v.count,
        v.complement,
        v.small,
        positive,
        total_all-store 𝓥 weight s.slots h.index (dead_slot slot) inside,
        r.here,
        r.active,
      );
      complement = ground (
        arith,
        v.complement,
        v.small,
        positive,
        size_push_back s.freed h.index,
        size_store s.slots h.index (dead_slot slot),
      );
      small = ground (arith, v.small, size_store s.slots h.index (dead_slot slot));
    }

    -- The count of a store that loses an object does not wrap.
    pub emptied-active_count : (emptied s h slot).active_count + 1 ≡ s.active_count
    emptied-active_count = ground (arith, v.complement, v.small, positive)
