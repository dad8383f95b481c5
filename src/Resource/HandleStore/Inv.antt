-- ===== src/Resource/HandleStore/Inv.antt =====
-- The invariant of the handle store.
use hyprie.Base.{
  ℕ, ◌+◌, ◌%◌, ◌≡◌, ◌≢◌, ◌<◌, ◌≤◌, Bool, ◌&&◌, ◌==◌, true, false, Option, none, some, arith, u32,
  invalid_u32, Vault, total, total-store,
}
use hyprie.Resource.HandleStore.{Handle, Slot, HandleStore, construct, create_at}

abbrev pub lives : {A : Type 0} → Option A → Bool
lives none = false
lives (some a) = true

abbrev pub bit : Bool → ℕ
bit true = 1
bit false = 0

-- An object lives in the bytes exactly of an active slot, and the generation of a slot is odd
-- exactly while it is active.
pub record SlotOk {A : Type 0} (s : Slot A) : Type 0 where
  pub word : s.magic < 4294967296
  pub parity : s.magic % 2 ≡ bit s.active
  pub alive : lives s.storage ≡ s.active

abbrev pub weight : {A : Type 0} → Slot A → ℕ
weight s = bit s.active

abbrev pub status : {A : Type 0} → Option (Slot A) → Option Bool
status none = none
status (some s) = some s.active

-- The handle names an active slot of its generation.
abbrev pub resolves : {A : Type 0} → Option (Slot A) → Handle → Bool
resolves none h = false
resolves (some s) h = s.active && (s.magic == h.magic)

module _ (𝓥 : Vault) {A : Type 0} where
  open 𝓥 use {
    Vec, size, at, push_back, pop_back, store, at_in, at_out, size_push_back, at_push_back,
    size_pop_back, at_pop_back, size_store, at_store,
  }

  -- `m_freed` lists every inactive slot once, and the counter counts the active ones.
  pub record Inv (s : HandleStore 𝓥 A) : Type 0 where
    pub slot_ok : (i : ℕ) (sl : Slot A) → at s.slots i ≡ some sl → SlotOk sl
    pub freed_dead : (k i : ℕ) → at s.freed k ≡ some i → status (at s.slots i) ≡ some false
    pub freed_once : (j k i : ℕ) → at s.freed j ≡ some i → at s.freed k ≡ some i → j ≡ k
    pub dead_freed :
        (i : ℕ) → status (at s.slots i) ≡ some false → (k : ℕ) × (at s.freed k ≡ some i)
    pub count : s.active_count ≡ total 𝓥 weight s.slots (size s.slots)
    pub complement : s.active_count + size s.freed ≡ size s.slots
    pub small : size s.slots ≤ invalid_u32

  -- The same with one inactive slot, at `index`, that `m_freed` does not list: what `create` has
  -- reserved before it constructs the object.
  pub record Reserved (s : HandleStore 𝓥 A) (index : ℕ) (slot : Slot A) : Type 0 where
    pub slot_ok : (i : ℕ) (sl : Slot A) → at s.slots i ≡ some sl → SlotOk sl
    pub here : at s.slots index ≡ some slot
    pub dead : slot.active ≡ false
    pub inside : index < size s.slots
    pub freed_dead : (k i : ℕ) → at s.freed k ≡ some i → status (at s.slots i) ≡ some false
    pub freed_ne : (k : ℕ) → at s.freed k ≢ some index
    pub freed_once : (j k i : ℕ) → at s.freed j ≡ some i → at s.freed k ≡ some i → j ≡ k
    pub dead_freed :
        (i : ℕ) → i ≢ index → status (at s.slots i) ≡ some false → (k : ℕ) × (at s.freed k ≡ some i)
    pub count : s.active_count ≡ total 𝓥 weight s.slots (size s.slots)
    pub complement : s.active_count + size s.freed + 1 ≡ size s.slots
    pub small : size s.slots ≤ invalid_u32

  -- The state after `create_at`.
  abbrev pub filled : HandleStore 𝓥 A → ℕ → Slot A → A → HandleStore 𝓥 A
  filled s index slot a = record s {
    slots =
        store s.slots index
          (record { storage = some a; magic = u32 (slot.magic + 1); active = true });
    active_count = u32 (s.active_count + 1);
  }

  abbrev pub handle_to : ℕ → Slot A → Handle
  handle_to index slot = record { index = index; magic = u32 (slot.magic + 1) }

  pub create_at_lem :
      {s : HandleStore 𝓥 A} {index : ℕ} {slot : Slot A} (a : A)
      → Reserved s index slot
      → create_at 𝓥 s index a ≡ some (filled s index slot a, handle_to index slot)
  unfolding create_at construct
  create_at_lem a r = ground (arith, r.here, r.dead)

  module _ {s : HandleStore 𝓥 A} {index : ℕ} {slot : Slot A} (a : A)
      (r : Reserved s index slot) where
    abbrev new_slot : Slot A
    new_slot = record { storage = some a; magic = u32 (slot.magic + 1); active = true }

    filled-SlotOk :
        (i : ℕ) (sl : Slot A) → at (store s.slots index new_slot) i ≡ some sl → SlotOk sl
    filled-SlotOk i sl e = record {
      word = ground (arith, at_store s.slots index new_slot i, r.inside, r.slot_ok i sl);
      parity = ground (
        arith,
        at_store s.slots index new_slot i,
        r.inside,
        r.slot_ok i sl,
        r.slot_ok index slot,
        r.here,
        r.dead,
      );
      alive = ground (arith, at_store s.slots index new_slot i, r.inside, r.slot_ok i sl);
    }

    filled-dead_freed :
        (i : ℕ)
        → status (at (store s.slots index new_slot) i) ≡ some false
        → (k : ℕ) × (at s.freed k ≡ some i)
    filled-dead_freed i e =
        r.dead_freed i (ground (arith, at_store s.slots index new_slot i, r.inside))
          (ground (arith, at_store s.slots index new_slot i, r.inside))

    pub filled-Inv : Inv (filled s index slot a)
    filled-Inv = record {
      slot_ok = filled-SlotOk;
      freed_dead = λ k i e.
          ground
            (arith, at_store s.slots index new_slot i, r.inside, r.freed_dead k i, r.freed_ne k);
      freed_once = r.freed_once;
      dead_freed = filled-dead_freed;
      count = ground (
        arith,
        size_store s.slots index new_slot,
        total-store 𝓥 weight s.slots index new_slot (size s.slots),
        r.inside,
        r.here,
        r.dead,
        r.count,
        r.complement,
        r.small,
      );
      complement = ground (arith, size_store s.slots index new_slot, r.complement, r.small);
      small = ground (arith, size_store s.slots index new_slot, r.small);
    }
