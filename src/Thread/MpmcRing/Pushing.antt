-- ===== src/Thread/MpmcRing/Pushing.antt =====
-- The steps of `push` that change a shared variable keep the invariant.
use hyprie.Base.{
  ℕ, ◌+◌, ◌^◌, ◌≡◌, ◌<◌, ◌≤◌, ◌⊎◌, inl, inr, List, length, snoc, length-snoc, get_elem?-snoc,
  get_elem?-out, ◌==◌, ap, ◌∙◌, arith, Bool-cases, ltb, u32,
}
use hyprie.Thread.MpmcRing.{
  Ring, Pc, crashed, push_test, pop_test, pop_cas, pop_read, pop_store, push_cas, push_write,
  push_store, slot, store_at,
}
use hyprie.Thread.MpmcRing.Slots.{slot-add}
use hyprie.Thread.MpmcRing.Inv.{Local, Queued, Vacant, Inv, keep-Writer, keep-Reader, writer_lem}

module _ {A : Type 0} {k : ℕ} {vs : List A} {m : Ring A} {pc : ℕ → Pc A} (v : Inv k vs m pc)
    (i : ℕ) where
  -- The slot of an older position, which is in use, is not the free slot at the end.
  older :
      m.sequence (slot k m.tail) ≡ m.tail
      → (p : ℕ) → (m.sequence (slot k p) ≡ p ⊎ m.sequence (slot k p) ≡ p + 1)
      → m.tail ≤ p + 2 ^ k
      → m.tail < p + 2 ^ k
  older e p used h = elim (Bool-cases (ltb m.tail (p + 2 ^ k))) [
    | inl less ↦ ground arith
    | inr full ↦
        let et : m.tail ≡ p + 2 ^ k = ground arith in
        let es : slot k m.tail ≡ slot k p = ap (slot k) et ∙ slot-add k p in
        absurd (ground (arith, v.two))
  ]

  in_use :
      (p : ℕ) → Queued k vs m pc p → (m.sequence (slot k p) ≡ p ⊎ m.sequence (slot k p) ≡ p + 1)
  in_use p (inl (e, w)) = inl e
  in_use p (inr (e, g)) = inr e

  pub room_left : m.sequence (slot k m.tail) ≡ m.tail → m.tail < m.head + 2 ^ k
  room_left e = elim (Bool-cases (ltb m.head m.tail)) [
    | inl less ↦
        older e m.head (in_use m.head (v.queued m.head (omega arith) (ground arith))) v.room
    | inr empty ↦ ground (arith, v.two, v.order)
  ]

  module _ {t : ℕ} {a : A} (at_i : pc i ≡ push_cas a t) (now : m.tail ≡ t)
      (small : length (snoc vs a) + 2 ^ k < 2147483648) where
    abbrev won : Ring A
    won = record m { tail = u32 (t + 1) }

    pub free : m.sequence (slot k m.tail) ≡ m.tail
    free = let (le, e) = own in rw now (e (omega arith))
      where
        own : (t ≤ m.tail) × (t ≡ m.tail → m.sequence (slot k t) ≡ t)
        own = rw at_i at (v.local i)

    next : u32 (t + 1) ≡ m.tail + 1
    next = omega (arith, small, length-snoc vs a, v.pushed)

    win_push-Local : (p : Pc A) → Local k vs m p → Local k (snoc vs a) won p
    win_push-Local (push_test b u) l = omega (arith, next, l)
    win_push-Local (push_cas b u) l = (omega (arith, next, l), λ e. absurd (omega (arith, next, l)))
    win_push-Local (push_write b u) l =
        ground (arith, next, l, get_elem?-snoc vs a u, get_elem?-out vs u)
    win_push-Local (push_store b u) l =
        ground (arith, next, l, get_elem?-snoc vs a u, get_elem?-out vs u)
    win_push-Local (pop_test h) l = l
    win_push-Local (pop_cas h) l = l
    win_push-Local (pop_read h) l =
        ground
          (arith, next, l, older free h (inr l.2) l.1, get_elem?-snoc vs a h, get_elem?-out vs h)
    win_push-Local (pop_store h b) l =
        ground
          (arith, next, l, older free h (inr l.2) l.1, get_elem?-snoc vs a h, get_elem?-out vs h)
    win_push-Local crashed l = l
    win_push-Local _ l = tt

    win_push-Queued :
        (p : ℕ)
        → m.head ≤ p
        → p < u32 (t + 1)
        → Queued k (snoc vs a) won (store_at pc i (push_write a t)) p
    win_push-Queued p h lt = elim (Bool-cases (p == t)) [
      | inl last ↦ inl (ground (arith, free), (i, ground arith))
      | inr before ↦ elim (v.queued p h (ground (arith, next))) [
        | inl (e, w) ↦ inl (e, keep-Writer pc i (push_write a t) (λ e. ground arith) w)
        | inr (e, g) ↦ inr (e, ground (arith, get_elem?-snoc vs a p, get_elem?-out vs p))
      ]
    ]

    win_push-Vacant :
        (p : ℕ)
        → u32 (t + 1) ≤ p
        → p < m.head + 2 ^ k
        → Vacant k won (store_at pc i (push_write a t)) p
    win_push-Vacant p h lt = elim (v.vacant p (omega (arith, next)) lt) [
      | inl e ↦ inl e
      | inr (q, eq, e, r) ↦ inr (q, eq, e, keep-Reader pc i (push_write a t) (λ e. ground arith) r)
    ]

    pub win_push-Inv : Inv k (snoc vs a) won (store_at pc i (push_write a t))
    win_push-Inv = record {
      two = v.two;
      small = small;
      pushed = omega (arith, next, v.pushed, length-snoc vs a);
      order = omega (arith, next, v.order);
      room = omega (arith, next, room_left free);
      queued = win_push-Queued;
      vacant = win_push-Vacant;
      passed = v.passed;
      bounded = v.bounded;
      local = λ j. elim (Bool-cases (i == j)) [
        | inl same ↦ rw same (
          omega (arith, now, next, v.order),
          omega (arith, next),
          ground (arith, free),
          ground (arith, get_elem?-snoc vs a t, v.pushed),
        )
        | inr other ↦ rw other (win_push-Local (pc j) (v.local j))
      ];
      one_writer =
          λ b c p eb ec. ground (arith, v.one_writer b c p, writer_lem v b p, writer_lem v c p);
      one_reader = λ b c p eb ec. ground (arith, v.one_reader b c p);
    }
