-- ===== src/Thread/MpmcRing/Writing.antt =====
-- The steps of `push` that write a slot keep the invariant.
use hyprie.Base.{
  ℕ, ◌+◌, ◌^◌, ◌≡◌, ◌≢◌, ◌<◌, ◌≤◌, inl, inr, true, some, List, get_elem?, ◌==◌, refl, arith,
  Bool-cases, u32,
}
use hyprie.Thread.MpmcRing.{
  Ring, Pc, crashed, push_test, pop_test, pop_cas, pop_read, pop_store, push_cas, push_write,
  push_store, push_returned, slot, store_at,
}
use hyprie.Thread.MpmcRing.Slots.{slot-far}
use hyprie.Thread.MpmcRing.Inv.{writes, Local, Queued, Vacant, Inv, keep-Writer, keep-Reader}

module _ {A : Type 0} {k : ℕ} {vs : List A} {m : Ring A} {pc : ℕ → Pc A} (v : Inv k vs m pc)
    (i : ℕ) where
  -- A position that is being written shares its slot with no filled one.
  apart :
      (t p : ℕ) → m.sequence (slot k t) ≡ t → m.sequence (slot k p) ≡ p + 1 → slot k t ≢ slot k p
  apart t p e f s = ground (arith, slot-far k p t, v.two)

  module _ {t : ℕ} {a : A} (at_i : pc i ≡ push_write a t) where
    abbrev written : Ring A
    written = record m { value = store_at m.value (slot k t) a }

    own_write :
        (m.head ≤ t) × (t < m.tail) × (m.sequence (slot k t) ≡ t) × (get_elem? vs t ≡ some a)
    own_write = rw at_i at (v.local i)

    write-Local :
        (p : Pc A) → ((u : ℕ) → writes p ≡ some u → u ≢ t) → Local k vs m p → Local k vs written p
    write-Local (push_test b u) other l = l
    write-Local (push_cas b u) other l = l
    write-Local (push_write b u) other l = l
    write-Local (push_store b u) other l = ground (arith, l, own_write, other u refl)
    write-Local (pop_test h) other l = l
    write-Local (pop_cas h) other l = l
    write-Local (pop_read h) other l = ground (arith, l, own_write, apart t h)
    write-Local (pop_store h b) other l = l
    write-Local crashed other l = l
    write-Local _ other l = tt

    pub write-Inv : Inv k vs written (store_at pc i (push_store a t))
    write-Inv = record {
      two = v.two;
      small = v.small;
      pushed = v.pushed;
      order = v.order;
      room = v.room;
      queued = λ p h lt. elim (v.queued p h lt) [
        | inl (e, w) ↦ inl (e, keep-Writer pc i (push_store a t) (λ e. ground arith) w)
        | inr (e, g) ↦ inr (e, ground (arith, own_write, apart t p))
      ];
      vacant = λ p h lt. elim (v.vacant p h lt) [
        | inl e ↦ inl e
        | inr (q, eq, e, r) ↦
            inr (q, eq, e, keep-Reader pc i (push_store a t) (λ e. ground arith) r)
      ];
      passed = v.passed;
      bounded = v.bounded;
      local = λ j. elim (Bool-cases (i == j)) [
        | inl same ↦ rw same (own_write.0, own_write.1, own_write.2, own_write.3, ground arith)
        | inr other ↦
            rw other (write-Local (pc j) (λ u eu e. ground (arith, v.one_writer i j t)) (v.local j))
      ];
      one_writer =
          λ b c p eb ec. ground (arith, v.one_writer b c p, v.one_writer i c p, v.one_writer b i p);
      one_reader = λ b c p eb ec. ground (arith, v.one_reader b c p);
    }

  module _ {t : ℕ} {a : A} (at_i : pc i ≡ push_store a t) where
    abbrev released : Ring A
    released = record m { sequence = store_at m.sequence (slot k t) (u32 (t + 1)) }

    own_store :
        (m.head ≤ t)
        × (t < m.tail)
        × (m.sequence (slot k t) ≡ t)
        × (get_elem? vs t ≡ some a)
        × (m.value (slot k t) ≡ a)
    own_store = rw at_i at (v.local i)

    next : u32 (t + 1) ≡ t + 1
    next = omega (arith, own_store.1, v.pushed, v.small)

    release-Local :
        (p : Pc A) → ((u : ℕ) → writes p ≡ some u → u ≢ t) → Local k vs m p → Local k vs released p
    release-Local (push_test b u) other l = l
    release-Local (push_cas b u) other l = (l.0, λ e. ground (arith, l.1 e, own_store))
    release-Local (push_write b u) other l = ground (arith, l, own_store, other u refl)
    release-Local (push_store b u) other l = ground (arith, l, own_store, other u refl)
    release-Local (pop_test h) other l = l
    release-Local (pop_cas h) other l = (l.0, λ e. ground (arith, l.1 e, own_store, apart t h))
    release-Local (pop_read h) other l = ground (arith, l, own_store, apart t h)
    release-Local (pop_store h b) other l = ground (arith, l, own_store, apart t h)
    release-Local crashed other l = l
    release-Local _ other l = tt

    release-Queued :
        (p : ℕ)
        → m.head ≤ p
        → p < m.tail
        → Queued k vs released (store_at pc i (push_returned true)) p
    release-Queued p h lt = elim (Bool-cases (p == t)) [
      | inl same ↦ inr (ground (arith, next), ground (arith, own_store))
      | inr other ↦
          let ne : slot k t ≢ slot k p =
            λ e. ground (arith, own_store, slot-far k p t, slot-far k t p, v.room) in
          elim (v.queued p h lt) [
            | inl (e, w) ↦
                inl
                  (ground (arith, ne), keep-Writer pc i (push_returned true) (λ e. ground arith) w)
            | inr (e, g) ↦ inr (ground (arith, ne), g)
          ]
    ]

    release-Vacant :
        (p : ℕ)
        → m.tail ≤ p
        → p < m.head + 2 ^ k
        → Vacant k released (store_at pc i (push_returned true)) p
    release-Vacant p h lt =
        let ne : slot k t ≢ slot k p = λ e. ground (arith, own_store, slot-far k t p) in
        elim (v.vacant p h lt) [
          | inl e ↦ inl (ground (arith, ne))
          | inr (q, eq, e, r) ↦ inr (
            q,
            eq,
            ground (arith, ne),
            keep-Reader pc i (push_returned true) (λ e. ground arith) r,
          )
        ]

    pub release-Inv : Inv k vs released (store_at pc i (push_returned true))
    release-Inv = record {
      two = v.two;
      small = v.small;
      pushed = v.pushed;
      order = v.order;
      room = v.room;
      queued = release-Queued;
      vacant = release-Vacant;
      passed = λ p h. ground (arith, v.passed p h, next, own_store);
      bounded = λ p. ground (arith, v.bounded p, next, own_store, v.pushed, v.small);
      local = λ j. elim (Bool-cases (i == j)) [
        | inl same ↦ rw same tt
        | inr other ↦
            rw other
              (release-Local (pc j) (λ u eu e. ground (arith, v.one_writer i j t)) (v.local j))
      ];
      one_writer = λ b c p eb ec. ground (arith, v.one_writer b c p);
      one_reader = λ b c p eb ec. ground (arith, v.one_reader b c p);
    }
