-- ===== src/Resource/HandleStore/Teardown.antt =====
-- The destructor, the moves and the initial state of the handle store.
use hyprie.Base.{
  ℕ, zero, suc, ◌+◌, ◌≡◌, ◌<◌, ◌≤◌, false, none, some, refl, ap, ◌∙◌, ==_iff, if◌then◌else◌, u32,
  arith, inl, inr, ◌==◌, Bool-cases, Vault, total-zero,
}
use hyprie.Resource.HandleStore.{
  Slot, HandleStore, init, destruct, destruct_from, destruct_all, move_construct, move_assign,
}
use hyprie.Resource.HandleStore.Inv.{Inv, SlotOk}

module _ (𝓥 : Vault) {A : Type 0} where
  open 𝓥 use {Vec, size, at, empty, store, at_in, at_out, at_store, size_store, size_empty}

  -- What the loop of the destructor has done from index `i` on.
  record Torn (v : Vec (Slot A)) (i n : ℕ) : Type 0 where
    last : Vec (Slot A)
    result : destruct_from 𝓥 v i n ≡ some last
    kept : (j : ℕ) → j < i → at last j ≡ at v j
    torn : (j : ℕ) (sl : Slot A) → i ≤ j → at v j ≡ some sl → at last j ≡ some (destruct sl)
    same_size : size last ≡ size v

  destruct_from-Torn : (n : ℕ) (v : Vec (Slot A)) (i : ℕ) → i + n ≡ size v → Torn v i n
  unfolding destruct_from destruct
  destruct_from-Torn zero v i e = record {
    last = v;
    result = refl;
    kept = λ j h. refl;
    torn = λ j sl h es. ground (arith, at_out v j);
    same_size = refl;
  }
  destruct_from-Torn (suc n) v i e =
      let (sl, es) = at_in v i (omega arith) in
      let d = destruct sl in
      let t = destruct_from-Torn n (store v i d) (i + 1) (omega (arith, size_store v i d)) in
      record {
        last = t.last;
        result = rw es t.result;
        kept = λ j h. ground (arith, t.kept j, at_store v i d j);
        torn = λ j sl' h e'. elim (Bool-cases (i == j)) [
          | inl same ↦
              let ej : i ≡ j = (==_iff i j).0 same in
              t.kept j (omega arith)
              ∙ at_store v i d j (omega arith)
              ∙ rw same (ground (arith, ap (at v) ej))
          | inr other ↦ t.torn j sl' (ground arith) (at_store v i d j (omega arith) ∙ rw other e')
        ];
        same_size = omega (arith, t.same_size, size_store v i d);
      }

  destruct-dead :
      (sl : Slot A)
      → SlotOk sl
      → ((destruct sl).storage ≡ none)
        × ((destruct sl).active ≡ false)
        × ((destruct sl).magic ≡ (if sl.active then u32 (sl.magic + 1) else sl.magic))
  unfolding destruct
  destruct-dead sl ok = elim (Bool-cases sl.active) [
    | inl on ↦ (ground arith, ground arith, ground arith)
    | inr off ↦ (ground (arith, ok.alive), ground arith, ground arith)
  ]

  -- The destructor of a store that satisfies the invariant visits every slot without a fault: each
  -- slot is still there, no object lives in it any more, and exactly the slots that held an object
  -- have been destructed, which the generation counts.
  pub destruct_all-dead :
      {s : HandleStore 𝓥 A}
      → Inv 𝓥 s
      → (s' : HandleStore 𝓥 A) × (destruct_all 𝓥 s ≡ some s')
        × (size s'.slots ≡ size s.slots)
        × ((i : ℕ) (sl : Slot A)
            → at s.slots i ≡ some sl
            → (sl' : Slot A) × (at s'.slots i ≡ some sl')
              × (sl'.storage ≡ none)
              × (sl'.active ≡ false)
              × (sl'.magic ≡ (if sl.active then u32 (sl.magic + 1) else sl.magic)))
  unfolding destruct_all
  destruct_all-dead {s} v =
      let t = destruct_from-Torn (size s.slots) s.slots 0 (omega arith) in
      (
        record s { slots = t.last },
        rw t.result,
        t.same_size,
        λ i sl e.
            let (d, f, g) = destruct-dead sl (v.slot_ok i sl e) in
            (destruct sl, t.torn i sl (omega arith) e, d, f, g),
      )

  -- A store with no slots satisfies the invariant.
  pub no_slots-Inv :
      (v : Vec (Slot A)) (f : Vec ℕ)
      → size v ≡ 0
      → size f ≡ 0
      → Inv 𝓥 (record { slots = v; freed = f; active_count = 0 })
  no_slots-Inv v f ev ef = record {
    slot_ok = λ i sl e. absurd (ground (arith, at_out v i));
    freed_dead = λ k i e. absurd (ground (arith, at_out f k));
    freed_once = λ j k i ej ek. absurd (ground (arith, at_out f k));
    dead_freed = λ i e. absurd (ground (arith, at_out v i));
    count = rw (ev, total-zero);
    complement = omega arith;
    small = omega arith;
  }

  pub init-Inv : Inv 𝓥 (init 𝓥 {A = A})
  init-Inv = no_slots-Inv empty empty size_empty size_empty

  -- Where the library's move leaves empty containers behind, a move assignment succeeds, hands the
  -- whole store over, and leaves `other` a store that can be used again.
  pub move_assign-Inv :
      (left_slots : Vec (Slot A)) (left_freed : Vec ℕ) (self : HandleStore 𝓥 A)
      {other : HandleStore 𝓥 A}
      → size left_slots ≡ 0
      → size left_freed ≡ 0
      → Inv 𝓥 other
      → (rest : HandleStore 𝓥 A) × (move_assign 𝓥 left_slots left_freed self other
          ≡ some (other, rest))
        × Inv 𝓥 rest
  unfolding move_assign move_construct
  move_assign-Inv left_slots left_freed self {other} es ef v =
      let t = destruct_from-Torn (size self.slots) self.slots 0 (omega arith) in
      (_, rw t.result, no_slots-Inv left_slots left_freed es ef)
