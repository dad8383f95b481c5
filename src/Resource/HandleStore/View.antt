-- ===== src/Resource/HandleStore/View.antt =====
-- The handle store as a partial map from handles to objects.
use hyprie.Base.{
  ◌+◌, ◌≡◌, inl, inr, ◌<◌, Bool, true, ◌&&◌, Option, none, some, arith, Option-cases, ◌==◌,
  if◌then◌else◌, invalid_u32, Vault,
}
use hyprie.Resource.HandleStore.{
  Handle, Slot, HandleStore, Pointer, nullptr, object, is_valid, value, create, destroy, get, deref,
  live_count,
}
use hyprie.Resource.HandleStore.Inv.{Inv, lives, bit, filled, handle_to, filled-Inv}
use hyprie.Resource.HandleStore.Create.{Created, create-Created}
use hyprie.Resource.HandleStore.Destroy.{
  dead_slot, emptied, destroy-cases, emptied-Inv, emptied-active_count,
}

abbrev pub same : Handle → Handle → Bool
same h k = (h.index == k.index) && (h.magic == k.magic)

abbrev pub object_of : {A : Type 0} → Option (Slot A) → Handle → Option A
object_of none h = none
object_of (some sl) h = if sl.active && (sl.magic == h.magic) then sl.storage else none

abbrev pub pointer_to : {A : Type 0} → Option A → Pointer A
pointer_to none = nullptr
pointer_to (some a) = object a

module _ (𝓥 : Vault) {A : Type 0} where
  open 𝓥 use {size, at, store, at_in, at_out, at_store}

  -- The object that a handle stands for.
  abbrev pub view : HandleStore 𝓥 A → Handle → Option A
  view s h = object_of (at s.slots h.index) h

  -- `get` never faults and never hands out a pointer to dead bytes: it returns the object that the
  -- handle stands for, or `nullptr`.
  pub get-view :
      {s : HandleStore 𝓥 A} (h : Handle) → Inv 𝓥 s → get 𝓥 s h ≡ some (pointer_to (view s h))
  unfolding get value
  get-view {s} h v = elim (Option-cases (at s.slots h.index)) [
    | inl e ↦ ground (arith, at_in s.slots h.index)
    | inr (sl, e) ↦ ground (arith, at_out s.slots h.index, (v.slot_ok h.index sl e).alive)
  ]

  -- `operator[]` is defined exactly at the handles that stand for an object, and reads that object.
  pub deref-view : {s : HandleStore 𝓥 A} (h : Handle) → Inv 𝓥 s → deref 𝓥 s h ≡ view s h
  unfolding deref
  deref-view {s} h v = rw (get-view h v) (ground arith)

  filled-view :
      {s : HandleStore 𝓥 A} {a : A} (c : Created 𝓥 s a) (k : Handle)
      → Inv 𝓥 s
      → view (filled 𝓥 c.mid c.index c.slot a) k
        ≡ (if same (handle_to 𝓥 c.index c.slot) k then some a else view s k)
  filled-view {s} {a} c k v = ground (
    arith,
    at_store c.mid.slots c.index
        (record { storage = some a; magic = (handle_to 𝓥 c.index c.slot).magic; active = true })
        k.index,
    c.reserved.inside,
    c.reserved.dead,
    c.others k.index,
    c.before,
    at_out s.slots k.index,
  )

  -- While the store has a free slot or room for one more index, `create` succeeds and keeps the
  -- invariant. It returns a valid handle that stood for nothing before, adds exactly that handle
  -- with the new object to the map, and counts it.
  pub create_refines :
      {s : HandleStore 𝓥 A} (a : A)
      → Inv 𝓥 s
      → (size s.freed ≡ 0 → size s.slots < invalid_u32)
      → (s' : HandleStore 𝓥 A) × (h : Handle) × (create 𝓥 s a ≡ some (s', h))
        × Inv 𝓥 s'
        × (is_valid h ≡ true)
        × (view s h ≡ none)
        × ((k : Handle) → view s' k ≡ (if same h k then some a else view s k))
        × (live_count 𝓥 s' ≡ live_count 𝓥 s + 1)
  unfolding is_valid live_count
  create_refines {s} a v room =
      let c = create-Created 𝓥 a v room in
      (
        filled 𝓥 c.mid c.index c.slot a,
        handle_to 𝓥 c.index c.slot,
        c.result,
        filled-Inv 𝓥 a c.reserved,
        ground (arith, c.reserved.inside, c.reserved.small),
        ground (arith, c.before, c.reserved.dead, at_out s.slots c.index),
        (λ k. filled-view c k v),
        ground (arith, c.reserved.complement, c.reserved.small, c.counts),
      )

  -- `destroy` never faults and keeps the invariant. It takes exactly its handle out of the map, whether it stood for an object or not, and
  -- the count falls by one if it did.
  pub destroy_refines :
      {s : HandleStore 𝓥 A} (h : Handle)
      → Inv 𝓥 s
      → (s' : HandleStore 𝓥 A) × (destroy 𝓥 s h ≡ some s')
        × Inv 𝓥 s'
        × ((k : Handle) → view s' k ≡ (if same h k then none else view s k))
        × (live_count 𝓥 s' + bit (lives (view s h)) ≡ live_count 𝓥 s)
  unfolding live_count
  destroy_refines {s} h v = elim (destroy-cases 𝓥 s h) [
    | inl (un, e) ↦ (s, e, v, (λ k. ground arith), ground arith)
    | inr (slot, r, e) ↦ (
      emptied 𝓥 s h slot,
      e,
      emptied-Inv 𝓥 v r,
      (λ k. ground (
        arith,
        r.here,
        r.active,
        r.current,
        at_out s.slots h.index,
        at_store s.slots h.index (dead_slot 𝓥 slot) k.index,
      )),
      ground (
        arith,
        r.here,
        r.active,
        r.current,
        (v.slot_ok h.index slot r.here).alive,
        emptied-active_count 𝓥 v r,
      ),
    )
  ]
