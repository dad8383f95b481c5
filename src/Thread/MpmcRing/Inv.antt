-- ===== src/Thread/MpmcRing/Inv.antt =====
-- The invariant of the ring, and the steps that change no shared variable.
use hyprie.Base.{
  ℕ, ◌+◌, ◌^◌, ◌≡◌, ◌<◌, ◌≤◌, ◌⊎◌, inl, inr, Option, none, some, List, [], length, get_elem?, ◌==◌,
  refl, arith, Bool-cases,
}
use hyprie.Thread.MpmcRing.{
  Ring, Pc, idle, push_test, push_cas, push_write, push_store, pop_test, pop_cas, pop_read,
  pop_store, crashed, slot, store_at, init,
}
use hyprie.Thread.MpmcRing.Slots.{slot-eq, store_sequences-eq}

module _ {A : Type 0} where
  -- The position that a thread has taken for a push, or for a pop.
  abbrev pub writes : Pc A → Option ℕ
  writes (push_write v t) = some t
  writes (push_store v t) = some t
  writes p = none

  abbrev pub reads : Pc A → Option ℕ
  reads (pop_read h) = some h
  reads (pop_store h v) = some h
  reads p = none

  abbrev pub Writer : (ℕ → Pc A) → ℕ → Type 0
  Writer pc p = (j : ℕ) × (writes (pc j) ≡ some p)

  abbrev pub Reader : (ℕ → Pc A) → ℕ → Type 0
  Reader pc p = (j : ℕ) × (reads (pc j) ≡ some p)

  -- What the local variables of a thread say about the ring.
  abbrev pub Local : ℕ → List A → Ring A → Pc A → Type 0
  Local k vs m (push_test v t) = t ≤ m.tail
  Local k vs m (push_cas v t) = (t ≤ m.tail) × (t ≡ m.tail → m.sequence (slot k t) ≡ t)
  Local k vs m (push_write v t) =
      (m.head ≤ t) × (t < m.tail) × (m.sequence (slot k t) ≡ t) × (get_elem? vs t ≡ some v)
  Local k vs m (push_store v t) =
      (m.head ≤ t)
      × (t < m.tail)
      × (m.sequence (slot k t) ≡ t)
      × (get_elem? vs t ≡ some v)
      × (m.value (slot k t) ≡ v)
  Local k vs m (pop_test h) = h ≤ m.head
  Local k vs m (pop_cas h) = (h ≤ m.head) × (h ≡ m.head → m.sequence (slot k h) ≡ h + 1)
  Local k vs m (pop_read h) =
      (h < m.head)
      × (m.tail ≤ h + 2 ^ k)
      × (m.sequence (slot k h) ≡ h + 1)
      × (get_elem? vs h ≡ some (m.value (slot k h)))
  Local k vs m (pop_store h v) =
      (h < m.head)
      × (m.tail ≤ h + 2 ^ k)
      × (m.sequence (slot k h) ≡ h + 1)
      × (get_elem? vs h ≡ some v)
  Local k vs m crashed = 1 ≤ 0
  Local k vs m p = Unit

  -- A position in the queue is being written, or holds its value.
  abbrev pub Queued : ℕ → List A → Ring A → (ℕ → Pc A) → ℕ → Type 0
  Queued k vs m pc p =
      ((m.sequence (slot k p) ≡ p) × Writer pc p)
      ⊎ ((m.sequence (slot k p) ≡ p + 1) × (get_elem? vs p ≡ some (m.value (slot k p))))

  -- A position behind the queue is free, or the value that was in its slot is still being read.
  abbrev pub Vacant : ℕ → Ring A → (ℕ → Pc A) → ℕ → Type 0
  Vacant k m pc p =
      (m.sequence (slot k p) ≡ p)
      ⊎ ((q : ℕ) × (p ≡ q + 2 ^ k) × (m.sequence (slot k p) ≡ q + 1) × Reader pc q)

  pub record Inv (k : ℕ) (vs : List A) (m : Ring A) (pc : ℕ → Pc A) : Type 0 where
    pub two : 2 ≤ 2 ^ k
    pub small : length vs + 2 ^ k < 2147483648
    pub pushed : m.tail ≡ length vs
    pub order : m.head ≤ m.tail
    pub room : m.tail ≤ m.head + 2 ^ k
    pub queued : (p : ℕ) → m.head ≤ p → p < m.tail → Queued k vs m pc p
    pub vacant : (p : ℕ) → m.tail ≤ p → p < m.head + 2 ^ k → Vacant k m pc p
    pub passed : (p : ℕ) → p < m.head → p < m.sequence (slot k p)
    pub bounded : (p : ℕ) → m.sequence p < 2147483648
    pub local : (i : ℕ) → Local k vs m (pc i)
    pub one_writer : (i j p : ℕ) → writes (pc i) ≡ some p → writes (pc j) ≡ some p → i ≡ j
    pub one_reader : (i j p : ℕ) → reads (pc i) ≡ some p → reads (pc j) ≡ some p → i ≡ j

  pub init-Inv :
      (k : ℕ) (values : ℕ → A)
      → 2 ≤ 2 ^ k
      → 2 ^ k < 2147483648
      → Inv k [] (init k values) (λ i. idle)
  unfolding init
  init-Inv k values two small = record {
    two = two;
    small = omega arith;
    pushed = refl;
    order = omega arith;
    room = omega arith;
    queued = λ p h l. absurd (omega arith);
    vacant = λ p h l. inl (ground (arith, slot-eq k p, store_sequences-eq (2 ^ k) (λ i. 0) 0 p));
    passed = λ p h. absurd (omega arith);
    bounded = λ p. ground (arith, store_sequences-eq (2 ^ k) (λ i. 0) 0 p);
    local = λ i. tt;
    one_writer = λ i j p e e'. absurd (ground arith);
    one_reader = λ i j p e e'. absurd (ground arith);
  }

  -- Another thread's position is kept.
  pub keep-Writer :
      (pc : ℕ → Pc A) (i : ℕ) (p' : Pc A) {p : ℕ}
      → (writes (pc i) ≡ some p → writes p' ≡ some p)
      → Writer pc p
      → Writer (store_at pc i p') p
  keep-Writer pc i p' h (j, e) = (j, ground arith)

  pub keep-Reader :
      (pc : ℕ → Pc A) (i : ℕ) (p' : Pc A) {p : ℕ}
      → (reads (pc i) ≡ some p → reads p' ≡ some p)
      → Reader pc p
      → Reader (store_at pc i p') p
  keep-Reader pc i p' h (j, e) = (j, ground arith)

  -- A step of one thread that changes no shared variable and takes or leaves no position.
  pub silent-Inv :
      {k : ℕ} {vs : List A} {m : Ring A} {pc : ℕ → Pc A} (i : ℕ) (p' : Pc A)
      → Inv k vs m pc
      → writes p' ≡ writes (pc i)
      → reads p' ≡ reads (pc i)
      → Local k vs m p'
      → Inv k vs m (store_at pc i p')
  silent-Inv {k} {vs} {m} {pc} i p' v ew er l = record {
    two = v.two;
    small = v.small;
    pushed = v.pushed;
    order = v.order;
    room = v.room;
    queued = λ p h lt. elim (v.queued p h lt) [
      | inl (e, w) ↦ inl (e, keep-Writer pc i p' (λ e. ground arith) w)
      | inr f ↦ inr f
    ];
    vacant = λ p h lt. elim (v.vacant p h lt) [
      | inl e ↦ inl e
      | inr (q, eq, e, r) ↦ inr (q, eq, e, keep-Reader pc i p' (λ e. ground arith) r)
    ];
    passed = v.passed;
    bounded = v.bounded;
    local =
        λ j. elim (Bool-cases (i == j)) [ inl same ↦ rw same l | inr other ↦ rw other (v.local j) ];
    one_writer =
        λ a b p ea eb. ground (arith, v.one_writer a b p, v.one_writer i b p, v.one_writer a i p);
    one_reader =
        λ a b p ea eb. ground (arith, v.one_reader a b p, v.one_reader i b p, v.one_reader a i p);
  }

  writer-Local :
      (k : ℕ) (vs : List A) (m : Ring A) (p : Pc A) (t : ℕ)
      → Local k vs m p
      → writes p ≡ some t
      → (m.head ≤ t) × (t < m.tail) × (m.sequence (slot k t) ≡ t)
  writer-Local k vs m (push_write v u) t l e = ground arith
  writer-Local k vs m (push_store v u) t l e = ground arith
  writer-Local k vs m _ t l e = absurd (cc)

  reader-Local :
      (k : ℕ) (vs : List A) (m : Ring A) (p : Pc A) (h : ℕ)
      → Local k vs m p
      → reads p ≡ some h
      → (h < m.head) × (m.tail ≤ h + 2 ^ k) × (m.sequence (slot k h) ≡ h + 1)
  reader-Local k vs m (pop_read u) h l e = ground arith
  reader-Local k vs m (pop_store u v) h l e = ground arith
  reader-Local k vs m _ h l e = absurd (cc)

  -- What holds at a position that a thread has taken.
  pub writer_lem :
      {k : ℕ} {vs : List A} {m : Ring A} {pc : ℕ → Pc A}
      → Inv k vs m pc
      → (j t : ℕ) → writes (pc j) ≡ some t
      → (m.head ≤ t) × (t < m.tail) × (m.sequence (slot k t) ≡ t)
  writer_lem {k} {vs} {m} {pc} v j t e = writer-Local k vs m (pc j) t (v.local j) e

  pub reader_lem :
      {k : ℕ} {vs : List A} {m : Ring A} {pc : ℕ → Pc A}
      → Inv k vs m pc
      → (j h : ℕ) → reads (pc j) ≡ some h
      → (h < m.head) × (m.tail ≤ h + 2 ^ k) × (m.sequence (slot k h) ≡ h + 1)
  reader_lem {k} {vs} {m} {pc} v j h e = reader-Local k vs m (pc j) h (v.local j) e
