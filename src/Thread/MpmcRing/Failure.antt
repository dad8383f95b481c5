-- ===== src/Thread/MpmcRing/Failure.antt =====
-- When `push` and `pop` give up.
use hyprie.Base.{
  ℕ, ◌+◌, ◌^◌, ◌≡◌, ◌<◌, ◌≤◌, ◌⊎◌, inl, inr, false, none, List, length, Bool-cases, ap, arith, u32,
  ltb,
}
use hyprie.Thread.MpmcRing.{
  Ring, Pc, push_test, push_returned, pop_test, pop_returned, push_branch, pop_branch, difference,
  slot, System, Reach,
}
use hyprie.Thread.MpmcRing.Slots.{difference-cases}
use hyprie.Thread.MpmcRing.Inv.{Inv, Writer, Reader}
use hyprie.Thread.MpmcRing.Safety.{Reach-Inv}

module _ {A : Type 0} where
  false-lt :
      (v : A) (t s : ℕ)
      → s < 2147483648
      → t < 2147483648
      → push_branch v t (difference s t) ≡ push_returned false
      → s < t
  unfolding push_branch
  false-lt v t s hs ht e = ground (arith, difference-cases s t hs ht)

  none-lt :
      (h s t : ℕ)
      → s < 2147483648
      → t < 2147483648
      → pop_branch {A = A} h (difference s t) ≡ pop_returned none
      → s < t
  unfolding pop_branch
  none-lt h s t hs ht e = ground (arith, difference-cases s t hs ht)

  module _ {k : ℕ} {vs : List A} {m : Ring A} {pc : ℕ → Pc A} (v : Inv k vs m pc) where
    -- A slot that is behind its position: the position is the tail.
    behind_tail : (t : ℕ) → t ≤ m.tail → m.sequence (slot k t) < t → t ≡ m.tail
    behind_tail t le lt = elim (Bool-cases (ltb t m.tail)) [
      | inl less ↦ absurd (elim (Bool-cases (ltb t m.head)) [
        | inl gone ↦ omega (arith, v.passed t (ground arith))
        | inr here ↦ elim (v.queued t (ground arith) (ground arith)) [
          | inl (e, w) ↦ omega arith
          | inr (e, g) ↦ omega arith
        ]
      ])
      | inr same ↦ ground arith
    ]

    full_lem :
        m.sequence (slot k m.tail) < m.tail
        → (m.tail ≡ m.head + 2 ^ k) ⊎ ((q : ℕ) × (m.tail ≡ q + 2 ^ k) × Reader pc q)
    full_lem lt = elim (Bool-cases (ltb m.tail (m.head + 2 ^ k))) [
      | inl less ↦ elim (v.vacant m.tail (omega arith) (ground arith)) [
        | inl e ↦ absurd (omega arith)
        | inr (q, eq, e, r) ↦ inr (q, eq, r)
      ]
      | inr full ↦ inl (ground (arith, v.room))
    ]

    empty_lem :
        (h : ℕ) → h ≤ m.head → m.sequence (slot k h) < h + 1 → (m.head ≡ m.tail) ⊎ Writer pc m.head
    empty_lem h le lt = elim (Bool-cases (ltb h m.head)) [
      | inl gone ↦ absurd (omega (arith, v.passed h (ground arith)))
      | inr here ↦ elim (Bool-cases (ltb m.head m.tail)) [
        | inl less ↦
            let eh : h ≡ m.head = ground arith in
            elim (v.queued m.head (omega arith) (ground arith)) [
              | inl (e, w) ↦ inr w
              | inr (e, g) ↦ absurd (omega (arith, ap (λ n. m.sequence (slot k n)) eh))
            ]
        | inr no_value ↦ inl (ground (arith, v.order))
      ]
    ]

  -- In every state that is reachable with pushes that stay, with a capacity of at least 2, below
  -- 2^31, the test in `push` gives up only if the queue is full, or if the value that was in the
  -- slot for the next push is still being read by a `pop`.
  pub push_returned-full :
      {k : ℕ} {values : ℕ → A} {vs : List A} {s : System A} (i : ℕ) (v : A) (t : ℕ)
      → 2 ≤ 2 ^ k
      → length vs + 2 ^ k < 2147483648
      → Reach k values vs s
      → s.pc i ≡ push_test v t
      → push_branch v t (difference (s.ring.sequence (slot k t)) t) ≡ push_returned false
      → (s.ring.tail ≡ s.ring.head + 2 ^ k) ⊎ ((q : ℕ) × (s.ring.tail ≡ q + 2 ^ k) × Reader s.pc q)
  push_returned-full {k} {s = s} i v t two small r at_i e =
      let inv = Reach-Inv two small r in
      let own : t ≤ s.ring.tail = rw at_i at (inv.local i) in
      let lt = false-lt v t _ (inv.bounded (slot k t)) (omega (arith, inv.pushed)) e in
      let et = behind_tail inv t own lt in full_lem inv (rw (← et) lt)

  -- In every state that is reachable with pushes that stay, with a capacity of at least 2, below
  -- 2^31, the test in `pop` gives up only if the queue is empty, or if the value at its head is still
  -- being written by a `push`.
  pub pop_returned-empty :
      {k : ℕ} {values : ℕ → A} {vs : List A} {s : System A} (i h : ℕ)
      → 2 ≤ 2 ^ k
      → length vs + 2 ^ k < 2147483648
      → Reach k values vs s
      → s.pc i ≡ pop_test h
      → pop_branch {A = A} h (difference (s.ring.sequence (slot k h)) (u32 (h + 1)))
        ≡ pop_returned none
      → (s.ring.head ≡ s.ring.tail) ⊎ Writer s.pc s.ring.head
  pop_returned-empty {k} {s = s} i h two small r at_i e =
      let inv = Reach-Inv two small r in
      let own : h ≤ s.ring.head = rw at_i at (inv.local i) in
      let next : u32 (h + 1) ≡ h + 1 = omega (arith, inv.pushed, inv.order) in
      let lt =
        none-lt h _ _ (inv.bounded (slot k h)) (omega (arith, next, inv.pushed, inv.order)) e in
      empty_lem inv h own (omega (arith, next, lt))
