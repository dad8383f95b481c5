-- ===== src/Resource/HandleStore/Stale.antt =====
-- A handle that has been destroyed stays dead while other objects come and go in its slot.
use hyprie.Base.{
  ℕ, ◌+◌, ◌-◌, ◌%◌, ◌≡◌, inl, inr, ◌<◌, ◌≤◌, true, false, Option, none, some, refl, arith, List, [],
  ◌∷◌, Bool-cases, ◌==◌, ◌>>=◌, u32, invalid_u32, Vault, length,
}
use hyprie.Resource.HandleStore.{Handle, Slot, HandleStore, create, destroy}
use hyprie.Resource.HandleStore.Inv.{Inv, filled, filled-Inv, resolves}
use hyprie.Resource.HandleStore.Create.{Created, create-Created}
use hyprie.Resource.HandleStore.Destroy.{Resolves, dead_slot, emptied, destroy-cases, emptied-Inv}
use hyprie.Resource.HandleStore.View.{view, object_of}

object_of-resolves :
    {A : Type 0} (o : Option (Slot A)) (h : Handle) → resolves o h ≡ false → object_of o h ≡ none
object_of-resolves o h e = ground arith

-- What a client may do to a store.
pub data Op (A : Type 0) : Type 0 where
  creates : A → Op A
  destroys : Handle → Op A

module _ (𝓥 : Vault) {A : Type 0} where
  open 𝓥 use {size, at, store, at_in, at_out, at_store, size_store}

  unfoldable pub step : HandleStore 𝓥 A → Op A → Option (HandleStore 𝓥 A)
  step s (creates a) = do r ← create 𝓥 s a; some r.0
  step s (destroys h) = destroy 𝓥 s h

  unfoldable pub run : HandleStore 𝓥 A → List (Op A) → Option (HandleStore 𝓥 A)
  run s [] = some s
  run s (op ∷ ops) = step s op >>= λ s'. run s' ops

  -- The slot of `h` has moved on by between 1 and `n` generations.
  record Behind (s : HandleStore 𝓥 A) (h : Handle) (n : ℕ) : Type 0 where
    slot : Slot A
    here : at s.slots h.index ≡ some slot
    ahead : 0 < (slot.magic + 4294967296 - h.magic) % 4294967296
    near : (slot.magic + 4294967296 - h.magic) % 4294967296 ≤ n

  -- What one operation does to the slot of `h`.
  record Stepped (s : HandleStore 𝓥 A) (op : Op A) (h : Handle) (n : ℕ) : Type 0 where
    next : HandleStore 𝓥 A
    result : step s op ≡ some next
    inv : Inv 𝓥 next
    behind : Behind next h (n + 1)
    grows : size next.slots ≤ size s.slots + 1

  filled-Behind :
      {s : HandleStore 𝓥 A} {h : Handle} {n : ℕ} {a : A} (c : Created 𝓥 s a)
      → Behind s h n
      → n + 1 < 4294967296
      → h.magic < 4294967296
      → Behind (filled 𝓥 c.mid c.index c.slot a) h (n + 1)
  filled-Behind {s} {h} {n} {a} c b few w = elim (Bool-cases (c.index == h.index)) [
    | inl same ↦ record {
      slot = new;
      here = ground (arith, at_store c.mid.slots c.index new h.index, c.reserved.inside);
      ahead = ground (arith, b.here, b.ahead, b.near, c.before, at_out s.slots h.index);
      near = ground (arith, b.here, b.ahead, b.near, c.before, at_out s.slots h.index);
    }
    | inr other ↦ record {
      slot = b.slot;
      here = ground (
        arith,
        at_store c.mid.slots c.index new h.index,
        c.reserved.inside,
        c.others h.index,
        b.here,
      );
      ahead = b.ahead;
      near = omega (arith, b.near);
    }
  ]
    where
      new : Slot A
      new = record { storage = some a; magic = u32 (c.slot.magic + 1); active = true }

  emptied-Behind :
      {s : HandleStore 𝓥 A} {h k : Handle} {n : ℕ} {slot : Slot A}
      → Resolves 𝓥 s k slot
      → Behind s h n
      → n + 1 < 4294967296
      → h.magic < 4294967296
      → Behind (emptied 𝓥 s k slot) h (n + 1)
  emptied-Behind {s} {h} {k} {n} {slot} r b few w = elim (Bool-cases (k.index == h.index)) [
    | inl same ↦ record {
      slot = dead_slot 𝓥 slot;
      here = ground (
        arith,
        at_store s.slots k.index (dead_slot 𝓥 slot) h.index,
        at_out s.slots k.index,
        r.here,
      );
      ahead = ground (arith, b.here, b.ahead, b.near, r.here);
      near = ground (arith, b.here, b.ahead, b.near, r.here);
    }
    | inr other ↦ record {
      slot = b.slot;
      here = ground (
        arith,
        at_store s.slots k.index (dead_slot 𝓥 slot) h.index,
        at_out s.slots k.index,
        r.here,
        b.here,
      );
      ahead = b.ahead;
      near = omega (arith, b.near);
    }
  ]

  step-Stepped :
      {s : HandleStore 𝓥 A} (op : Op A) {h : Handle} {n : ℕ}
      → Inv 𝓥 s
      → Behind s h n
      → size s.slots < invalid_u32
      → n + 1 < 4294967296
      → h.magic < 4294967296
      → Stepped s op h n
  unfolding step
  step-Stepped (creates a) v b room few w =
      let c = create-Created 𝓥 a v (λ _. room) in
      record {
        next = filled 𝓥 c.mid c.index c.slot a;
        result = rw c.result;
        inv = filled-Inv 𝓥 a c.reserved;
        behind = filled-Behind c b few w;
        grows = omega (
          arith,
          c.grows,
          size_store c.mid.slots c.index
              (record { storage = some a; magic = u32 (c.slot.magic + 1); active = true }),
        );
      }
  step-Stepped {s} (destroys k) v b room few w = elim (destroy-cases 𝓥 s k) [
    | inl (un, e) ↦ record {
      next = s;
      result = e;
      inv = v;
      behind = record {
        slot = b.slot;
        here = b.here;
        ahead = b.ahead;
        near = omega (arith, b.near);
      };
      grows = omega arith;
    }
    | inr (slot, r, e) ↦ record {
      next = emptied 𝓥 s k slot;
      result = e;
      inv = emptied-Inv 𝓥 v r;
      behind = emptied-Behind r b few w;
      grows = omega (arith, size_store s.slots k.index (dead_slot 𝓥 slot));
    }
  ]

  run-Behind :
      (ops : List (Op A)) {s : HandleStore 𝓥 A} {h : Handle} {n : ℕ}
      → Inv 𝓥 s
      → Behind s h n
      → size s.slots + length ops ≤ invalid_u32
      → n + length ops < 4294967296
      → h.magic < 4294967296
      → (s' : HandleStore 𝓥 A) × (run s ops ≡ some s') × Inv 𝓥 s' × Behind s' h (n + length ops)
  unfolding run
  run-Behind [] {s} {h} {n} v b room few w = (
    s,
    refl,
    v,
    record { slot = b.slot; here = b.here; ahead = b.ahead; near = omega (arith, b.near) },
  )
  run-Behind (op ∷ ops) {s} {h} {n} v b room few w =
      let t = step-Stepped op v b (omega arith) (omega arith) w in
      let (s', e, v', b') =
        run-Behind ops t.inv t.behind (omega (arith, t.grows)) (omega arith) w in
      (
        s',
        rw t.result e,
        v',
        record { slot = b'.slot; here = b'.here; ahead = b'.ahead; near = omega (arith, b'.near) },
      )

  emptied-now :
      {s : HandleStore 𝓥 A} {h : Handle} {slot : Slot A}
      → Resolves 𝓥 s h slot
      → slot.magic < 4294967296
      → Behind (emptied 𝓥 s h slot) h 1
  emptied-now {s} {h} {slot} r w = record {
    slot = dead_slot 𝓥 slot;
    here = ground (
      arith,
      at_store s.slots h.index (dead_slot 𝓥 slot) h.index,
      at_out s.slots h.index,
      r.here,
    );
    ahead = omega (arith, r.current);
    near = omega (arith, r.current);
  }

  some_slot :
      {s : HandleStore 𝓥 A} {h : Handle} {slot : Slot A} → Resolves 𝓥 s h slot → 0 < size s.slots
  some_slot {s} {h} r = ground (arith, at_out s.slots h.index, r.here)

  -- After a handle that stands for an object is destroyed, any sequence of operations runs without a
  -- fault, and the handle still stands for nothing, as long as the slots and the operations together
  -- are at most 0xFFFFFFFF: the 32-bit generation counter does not come round to it.
  pub run-stale :
      {s s' : HandleStore 𝓥 A} (h : Handle) {a : A} (ops : List (Op A))
      → Inv 𝓥 s
      → view 𝓥 s h ≡ some a
      → destroy 𝓥 s h ≡ some s'
      → size s.slots + length ops ≤ invalid_u32
      → (t : HandleStore 𝓥 A) × (run s' ops ≡ some t) × Inv 𝓥 t × (view 𝓥 t h ≡ none)
  run-stale {s} {s'} h ops v e d room = elim (destroy-cases 𝓥 s h) [
    | inl (un, _) ↦ absurd (ground (arith, object_of-resolves (at s.slots h.index) h))
    | inr (slot, r, e') ↦
        let w : slot.magic < 4294967296 = (v.slot_ok h.index slot r.here).word in
        let (t, ran, v', b) =
          run-Behind ops (emptied-Inv 𝓥 v r) (emptied-now r w)
            (omega (arith, size_store s.slots h.index (dead_slot 𝓥 slot)))
            (omega (arith, some_slot r)) (omega (arith, r.current)) in
        (t, cc, v', ground (arith, b.here, b.ahead))
  ]
