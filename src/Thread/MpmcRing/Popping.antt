-- ===== src/Thread/MpmcRing/Popping.antt =====
-- The steps of `pop` that change a shared variable keep the invariant.
use hyprie.Base.{
  ℕ, ◌+◌, ◌^◌, ◌≡◌, ◌≢◌, ◌<◌, ◌≤◌, inl, inr, some, List, get_elem?, ◌==◌, refl, ap, ◌∙◌, arith,
  Bool-cases, ltb, u32,
}
use hyprie.Thread.MpmcRing.{
  Ring, Pc, crashed, push_test, pop_test, pop_cas, pop_read, pop_store, pop_returned, push_cas,
  push_write, push_store, slot, store_at,
}
use hyprie.Thread.MpmcRing.Slots.{slot-far, slot-add}
use hyprie.Thread.MpmcRing.Inv.{
  reads, Local, Queued, Vacant, Inv, keep-Writer, keep-Reader, reader_lem,
}

module _ {A : Type 0} {k : ℕ} {vs : List A} {m : Ring A} {pc : ℕ → Pc A} (v : Inv k vs m pc)
    (i : ℕ) where
  -- A filled slot at the head belongs to the queue.
  pub filled_head : m.sequence (slot k m.head) ≡ m.head + 1 → m.head < m.tail
  filled_head e = elim (Bool-cases (ltb m.head m.tail)) [
    | inl less ↦ ground arith
    | inr empty ↦ absurd (elim (v.vacant m.head (ground (arith, v.order)) (omega (arith, v.two))) [
      | inl free ↦ omega arith
      | inr (q, eq, e', r) ↦ omega (arith, v.two)
    ])
  ]

  module _ {h : ℕ} (at_i : pc i ≡ pop_cas h) (now : m.head ≡ h) where
    abbrev won : Ring A
    won = record m { head = u32 (h + 1) }

    pub filled : m.sequence (slot k m.head) ≡ m.head + 1
    filled = let (le, e) = own in rw now (e (omega arith))
      where
        own : (h ≤ m.head) × (h ≡ m.head → m.sequence (slot k h) ≡ h + 1)
        own = rw at_i at (v.local i)

    pub next : u32 (h + 1) ≡ m.head + 1
    next = omega (arith, filled_head filled, v.pushed, v.small)

    win_pop-Local : (p : Pc A) → Local k vs m p → Local k vs won p
    win_pop-Local (push_test b u) l = l
    win_pop-Local (push_cas b u) l = l
    win_pop-Local (push_write b u) l = ground (arith, l, next, filled)
    win_pop-Local (push_store b u) l = ground (arith, l, next, filled)
    win_pop-Local (pop_test g) l = omega (arith, l, next)
    win_pop-Local (pop_cas g) l = (omega (arith, l, next), λ e. absurd (omega (arith, l, next)))
    win_pop-Local (pop_read g) l = ground (arith, l, next)
    win_pop-Local (pop_store g b) l = ground (arith, l, next)
    win_pop-Local crashed l = l
    win_pop-Local _ l = tt

    win_pop-Vacant :
        (p : ℕ) → m.tail ≤ p → p < u32 (h + 1) + 2 ^ k → Vacant k won (store_at pc i (pop_read h)) p
    win_pop-Vacant p le lt = elim (Bool-cases (ltb p (m.head + 2 ^ k))) [
      | inl less ↦ elim (v.vacant p le (ground arith)) [
        | inl e ↦ inl e
        | inr (q, eq, e, r) ↦ inr (q, eq, e, keep-Reader pc i (pop_read h) (λ e. ground arith) r)
      ]
      | inr last ↦
          let ep : p ≡ m.head + 2 ^ k = ground (arith, next) in
          let es : slot k p ≡ slot k m.head = ap (slot k) ep ∙ slot-add k m.head in
          inr (h, omega (arith, ep, now), ground (arith, es, filled), (i, ground arith))
    ]

    pub head_value : Queued k vs m pc m.head → get_elem? vs m.head ≡ some (m.value (slot k m.head))
    head_value (inl (e, w)) = absurd (omega (arith, filled))
    head_value (inr (e, g)) = g

    pub win_pop-Inv : Inv k vs won (store_at pc i (pop_read h))
    win_pop-Inv = record {
      two = v.two;
      small = v.small;
      pushed = v.pushed;
      order = omega (arith, next, filled_head filled);
      room = omega (arith, next, v.room);
      queued = λ p le lt. elim (v.queued p (omega (arith, next)) lt) [
        | inl (e, w) ↦ inl (e, keep-Writer pc i (pop_read h) (λ e. ground arith) w)
        | inr g ↦ inr g
      ];
      vacant = win_pop-Vacant;
      passed = λ p lt. ground (arith, v.passed p, next, filled);
      bounded = v.bounded;
      local = λ j. elim (Bool-cases (i == j)) [
        | inl same ↦ rw same (
          omega (arith, next, now),
          omega (arith, now, v.room),
          ground (arith, now, filled),
          ground (arith, now, head_value (v.queued m.head (omega arith) (filled_head filled))),
        )
        | inr other ↦ rw other (win_pop-Local (pc j) (v.local j))
      ];
      one_writer = λ b c p eb ec. ground (arith, v.one_writer b c p);
      one_reader =
          λ b c p eb ec. ground (arith, v.one_reader b c p, reader_lem v b p, reader_lem v c p);
    }

  module _ {h : ℕ} {b : A} (at_i : pc i ≡ pop_store h b) where
    abbrev released : Ring A
    released = record m { sequence = store_at m.sequence (slot k h) (u32 (h + 2 ^ k)) }

    pub own :
        (h < m.head)
        × (m.tail ≤ h + 2 ^ k)
        × (m.sequence (slot k h) ≡ h + 1)
        × (get_elem? vs h ≡ some b)
    own = rw at_i at (v.local i)

    free : u32 (h + 2 ^ k) ≡ h + 2 ^ k
    free = omega (arith, own.0, v.order, v.pushed, v.small)

    release-Local :
        (p : Pc A) → ((u : ℕ) → reads p ≡ some u → u ≢ h) → Local k vs m p → Local k vs released p
    release-Local (push_test a u) other l = l
    release-Local (push_cas a u) other l =
        (l.0, λ e. ground (arith, l.1 e, own, v.two, v.order, slot-far k h u))
    release-Local (push_write a u) other l = ground (arith, l, own, v.two, slot-far k h u)
    release-Local (push_store a u) other l = ground (arith, l, own, v.two, slot-far k h u)
    release-Local (pop_test g) other l = l
    release-Local (pop_cas g) other l = (l.0, λ e. ground (arith, l.1 e, own))
    release-Local (pop_read g) other l = ground (arith, l, own, other g refl)
    release-Local (pop_store g a) other l = ground (arith, l, own, other g refl)
    release-Local crashed other l = l
    release-Local _ other l = tt

    release-Queued :
        (p : ℕ)
        → m.head ≤ p
        → p < m.tail
        → Queued k vs released (store_at pc i (pop_returned (some b))) p
    release-Queued p le lt =
        let ne : slot k h ≢ slot k p = λ e. ground (arith, own, slot-far k h p) in
        elim (v.queued p le lt) [
          | inl (e, w) ↦
              inl
                (ground (arith, ne), keep-Writer pc i (pop_returned (some b)) (λ e. ground arith) w)
          | inr (e, g) ↦ inr (ground (arith, ne), g)
        ]

    release-Vacant :
        (p : ℕ)
        → m.tail ≤ p
        → p < m.head + 2 ^ k
        → Vacant k released (store_at pc i (pop_returned (some b))) p
    release-Vacant p le lt = elim (Bool-cases (p == h + 2 ^ k)) [
      | inl same ↦
          let ep : p ≡ h + 2 ^ k = ground arith in
          let es : slot k p ≡ slot k h = ap (slot k) ep ∙ slot-add k h in
          inl (ground (arith, es, ep, free))
      | inr other ↦
          let ne : slot k h ≢ slot k p = λ e.
            ground (arith, own, slot-far k h p, slot-far k (h + 2 ^ k) p, slot-add k h, v.order) in
          elim (v.vacant p le lt) [
            | inl e ↦ inl (ground (arith, ne))
            | inr (q, eq, e, r) ↦ inr (
              q,
              eq,
              ground (arith, ne),
              keep-Reader pc i (pop_returned (some b)) (λ e. ground arith) r,
            )
          ]
    ]

    pub release-Inv : Inv k vs released (store_at pc i (pop_returned (some b)))
    release-Inv = record {
      two = v.two;
      small = v.small;
      pushed = v.pushed;
      order = v.order;
      room = v.room;
      queued = release-Queued;
      vacant = release-Vacant;
      passed = λ p lt. ground (arith, v.passed p lt, free, own, v.order);
      bounded = λ p. ground (arith, v.bounded p, free, own, v.order, v.pushed, v.small);
      local = λ j. elim (Bool-cases (i == j)) [
        | inl same ↦ rw same tt
        | inr other ↦
            rw other
              (release-Local (pc j) (λ u eu e. ground (arith, v.one_reader i j h)) (v.local j))
      ];
      one_writer = λ a c p ea ec. ground (arith, v.one_writer a c p);
      one_reader = λ a c p ea ec. ground (arith, v.one_reader a c p);
    }
