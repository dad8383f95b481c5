-- ===== src/Thread/MpmcRing/Queue.antt =====
-- The ring as a queue: what is between the two counters.
use hyprie.Base.{
  ℕ, zero, suc, ◌+◌, ◌^◌, ◌≡◌, ◌≢◌, ◌<◌, ◌≤◌, Option, none, some, List, [], ◌∷◌, length, get_elem?,
  get_elem?-out, get_elem?-snoc, inl, inr, Bool-cases, ◌==◌, ◌∙◌, ap, sym, snoc, refl, arith, u32,
}
use hyprie.Thread.MpmcRing.{
  Ring, Pc, pop_store, pop_read, pop_cas, later, store_at, crashed, Move, System, Reach, append,
  call_push, load_tail, test_push, win_push, lose_push, write_value, release_push, finish_push,
  call_pop, load_head, test_pop, win_pop, lose_pop, read_value, release_pop, finish_pop, slot,
}
use hyprie.Thread.MpmcRing.Inv.{Inv, reads}
use hyprie.Thread.MpmcRing.Safety.{Reach-Inv, length-append-le}
use hyprie.Thread.MpmcRing.Pushing
use hyprie.Thread.MpmcRing.Popping

-- What a step does to a queue.
pub data QueueAction (A : Type 0) : Type 0 where
  silent : QueueAction A
  enqueue : A → QueueAction A
  dequeue : A → QueueAction A

-- Steps of any threads, from a state with its pushes to another one.
pub data Run {A : Type 0} (k : ℕ) (vs : List A) (s : System A) : List A → System A → Type 0 where
  no_step : Run k vs s vs s
  one_more :
      {vs' : List A} {s' : System A} {e : Option A} {m : Ring A} {p : Pc A}
      → Run k vs s vs' s'
      → (i : ℕ) → Move k s'.ring (s'.pc i) e m p
      → Run k vs s (append vs' e) (record { ring = m; pc = store_at s'.pc i p })

module _ {A : Type 0} where
  abbrev pub drop : ℕ → List A → List A
  drop zero xs = xs
  drop (suc n) [] = []
  drop (suc n) (x ∷ xs) = drop n xs

  drop-snoc :
      (n : ℕ) (xs : List A) (a : A) → n ≤ length xs → drop n (snoc xs a) ≡ snoc (drop n xs) a
  drop-snoc zero xs a h = refl
  drop-snoc (suc n) [] a h = absurd (omega arith)
  drop-snoc (suc n) (x ∷ xs) a h = drop-snoc n xs a (omega arith)

  drop-suc :
      (n : ℕ) (xs : List A) (a : A) → get_elem? xs n ≡ some a → drop n xs ≡ a ∷ drop (suc n) xs
  drop-suc n [] a e = absurd (ground arith)
  drop-suc zero (x ∷ xs) a e = ground arith
  drop-suc (suc n) (x ∷ xs) a e = drop-suc n xs a e

  length-drop : (n : ℕ) (xs : List A) → n ≤ length xs → length (drop n xs) + n ≡ length xs
  length-drop zero xs h = omega arith
  length-drop (suc n) [] h = absurd (omega arith)
  length-drop (suc n) (x ∷ xs) h = omega (arith, length-drop n xs (omega arith))

  -- A bounded queue: it stays, takes a value at its end while it has room, or gives its first one.
  pub data QueueStep (room : ℕ) (q : List A) : QueueAction A → List A → Type 0 where
    stays : QueueStep room q silent q
    enqueues : (a : A) → length q < room → QueueStep room q (enqueue a) (snoc q a)
    dequeues : (a : A) (q' : List A) → q ≡ a ∷ q' → QueueStep room q (dequeue a) q'

  -- The successful exchange of `push` enqueues the thread's value, the one of `pop` dequeues the value
  -- that is in the slot of its position, and every other step is silent.
  abbrev pub action :
      {k : ℕ} {m m' : Ring A} {p p' : Pc A} {e : Option A} → Move k m p e m' p' → QueueAction A
  action (win_push {v = a} now) = enqueue a
  action {k} {m} (win_pop {h = h} now) = dequeue (m.value (slot k h))
  action _ = silent

  -- The values that have been pushed and not yet taken for a pop.
  abbrev pub content : List A → Ring A → List A
  content vs m = drop m.head vs

  -- The slot of the position that `pop` takes holds the first value.
  won_value :
      {k : ℕ} {vs : List A} {m : Ring A} {pc : ℕ → Pc A} {h : ℕ} (v : Inv k vs m pc) (i : ℕ)
      → pc i ≡ pop_cas h
      → m.head ≡ h
      → get_elem? vs m.head ≡ some (m.value (slot k m.head))
  won_value {m = m} v i at_i now =
      Popping.head_value v i at_i now
        (v.queued m.head (omega arith) (Popping.filled_head v i (Popping.filled v i at_i now)))

  Move-QueueStep :
      {k : ℕ} {vs : List A} {m m' : Ring A} {pc : ℕ → Pc A} {p p' : Pc A} {e : Option A} (i : ℕ)
      → Inv k vs m pc
      → pc i ≡ p
      → length (append vs e) + 2 ^ k < 2147483648
      → (mv : Move k m p e m' p')
      → QueueStep (2 ^ k) (content vs m) (action mv) (content (append vs e) m')
  Move-QueueStep {k} {vs} {m} {m'} {pc} i v at_i small (win_push {v = a} {t = t} now) =
      let free = Pushing.free v i at_i now small in
      rw (drop-snoc m.head vs a (omega (arith, v.order, v.pushed))) (
        enqueues a
          (omega (arith, Pushing.room_left v i free, v.order, v.pushed, length-drop m.head vs)))
  Move-QueueStep {k} {vs} {m} {m'} {pc} i v at_i small (win_pop {h = h} now) =
      let first = won_value v i at_i now in
      let next : u32 (h + 1) ≡ suc m.head = omega (arith, Popping.next v i at_i now) in
      let took : m.value (slot k m.head) ≡ m.value (slot k h) = ap (λ p. m.value (slot k p)) now in
      dequeues (m.value (slot k h)) (drop (u32 (h + 1)) vs) (
        drop-suc m.head vs _ (first ∙ ap some took)
        ∙ ap (λ n. m.value (slot k h) ∷ drop n vs) (sym next))
  Move-QueueStep i v at_i small (call_push a) = stays
  Move-QueueStep i v at_i small load_tail = stays
  Move-QueueStep i v at_i small test_push = stays
  Move-QueueStep i v at_i small lose_push = stays
  Move-QueueStep i v at_i small write_value = stays
  Move-QueueStep i v at_i small release_push = stays
  Move-QueueStep i v at_i small finish_push = stays
  Move-QueueStep i v at_i small call_pop = stays
  Move-QueueStep i v at_i small load_head = stays
  Move-QueueStep i v at_i small test_pop = stays
  Move-QueueStep i v at_i small lose_pop = stays
  Move-QueueStep i v at_i small read_value = stays
  Move-QueueStep i v at_i small release_pop = stays
  Move-QueueStep i v at_i small finish_pop = stays

  -- The thread of a dequeuing step is at the position of the value.
  dequeued_position :
      {k : ℕ} {vs : List A} {m m' : Ring A} {pc : ℕ → Pc A} {p p' : Pc A} {e : Option A} (i : ℕ)
      → Inv k vs m pc
      → pc i ≡ p
      → (mv : Move k m p e m' p') → (a : A) → action mv ≡ dequeue a
      → (h : ℕ) × (p' ≡ pop_read h) × (get_elem? (append vs e) h ≡ some a)
  dequeued_position {k} {vs} {m} i v at_i (win_pop {h = h} now) a took =
      let first = won_value v i at_i now in
      let at_h : get_elem? vs h ≡ some (m.value (slot k h)) =
        ap (get_elem? vs) (sym now) ∙ first ∙ ap (λ p. some (m.value (slot k p))) now in
      let same : m.value (slot k h) ≡ a = cc in (h, refl, at_h ∙ ap some same)
  dequeued_position i v at_i _ a took = absurd (cc)

  Run-Reach :
      {k : ℕ} {values : ℕ → A} {vs : List A} {s : System A} {vs' : List A} {s' : System A}
      → Reach k values vs s
      → Run k vs s vs' s'
      → Reach k values vs' s'
  Run-Reach r no_step = r
  Run-Reach r (one_more run i mv) = later (Run-Reach r run) i mv

  some_injective : {a b : A} → some a ≡ some b → a ≡ b
  some_injective e = cc

  get_elem?-append :
      (vs : List A) (e : Option A) (h : ℕ) (a : A)
      → get_elem? vs h ≡ some a
      → get_elem? (append vs e) h ≡ some a
  get_elem?-append vs none h a at_h = at_h
  get_elem?-append vs (some v) h a at_h = elim (Bool-cases (h == length vs)) [
    | inl last ↦ absurd (ground (arith, get_elem?-out vs h))
    | inr other ↦ get_elem?-snoc vs v h ∙ rw other at_h
  ]

  get_elem?-Run :
      {k : ℕ} {vs : List A} {s : System A} {vs' : List A} {s' : System A} (h : ℕ) (a : A)
      → get_elem? vs h ≡ some a
      → Run k vs s vs' s'
      → get_elem? vs' h ≡ some a
  get_elem?-Run h a at_h no_step = at_h
  get_elem?-Run h a at_h (one_more {vs' = vs'} {e = e} run i mv) =
      get_elem?-append vs' e h a (get_elem?-Run h a at_h run)

  -- In every state that is reachable with pushes that stay, with a capacity of at least 2, below
  -- 2^31, a thread that has read a value in `pop` has the value that was pushed at its
  -- position, the position is behind the head, and no other thread has it.
  pub Reach-pop_store :
      {k : ℕ} {values : ℕ → A} {vs : List A} {s : System A} {i h : ℕ} {v : A}
      → 2 ≤ 2 ^ k
      → length vs + 2 ^ k < 2147483648
      → Reach k values vs s
      → s.pc i ≡ pop_store h v
      → (get_elem? vs h ≡ some v) × (h < s.ring.head) × ((j : ℕ) → reads (s.pc j) ≡ some h → j ≡ i)
  Reach-pop_store {s = s} {i} {h} two small r at_i =
      let inv = Reach-Inv two small r in
      let own = Popping.own inv i at_i in
      (own.3, own.0, λ j e. inv.one_reader j i h e (ground arith))

  -- In every state that is reachable with pushes that stay, with a capacity of at least 2, below
  -- 2^31, no thread has computed an overflowing difference, the tail counts the pushes, and at most a
  -- capacity of values is between the two counters.
  pub Reach-bounds :
      {k : ℕ} {values : ℕ → A} {vs : List A} {s : System A}
      → 2 ≤ 2 ^ k
      → length vs + 2 ^ k < 2147483648
      → Reach k values vs s
      → ((i : ℕ) → s.pc i ≢ crashed)
        × (s.ring.tail ≡ length vs)
        × (s.ring.head ≤ s.ring.tail)
        × (s.ring.tail ≤ s.ring.head + 2 ^ k)
  Reach-bounds {s = s} two small r =
      let inv = Reach-Inv two small r in
      (
        (λ i e. let l : 1 ≤ 0 = rw e at (inv.local i) in omega arith),
        inv.pushed,
        inv.order,
        inv.room,
      )

  -- What a thread takes out of the queue is what it reads: when a step dequeues a value, the thread is
  -- at a position from then on, and the value that it has read there, in whatever order the threads go
  -- on, is the dequeued one.
  abbrev pub Answers :
      {k : ℕ} {m m' : Ring A} {p p' : Pc A} {e : Option A}
      → List A
      → System A
      → ℕ
      → Move k m p e m' p'
      → Type 0
  Answers {k} {p' = p'} vs after i mv =
      (a : A)
      → action mv ≡ dequeue a
      → (h : ℕ) × (p' ≡ pop_read h)
        × ((v : A) (vs' : List A) (s' : System A)
            → Run k vs after vs' s'
            → length vs' + 2 ^ k < 2147483648
            → s'.pc i ≡ pop_store h v
            → v ≡ a)

  -- In every state that is reachable with pushes that stay, with a capacity of at least 2, below
  -- 2^31, a step of a thread is a step of a queue of that capacity: the successful exchange in `push`
  -- enqueues the thread's value while the queue has room, the one in `pop` dequeues the first value,
  -- and no other step changes the queue. The value that the thread has read behind the exchange in
  -- `pop`, which is the one that it returns, is the dequeued one.
  pub Reach-QueueStep :
      {k : ℕ} {values : ℕ → A} {vs : List A} {s : System A} {e : Option A} {m : Ring A} {p : Pc A}
      → 2 ≤ 2 ^ k
      → length (append vs e) + 2 ^ k < 2147483648
      → Reach k values vs s
      → (i : ℕ) → (mv : Move k s.ring (s.pc i) e m p)
      → QueueStep (2 ^ k) (content vs s.ring) (action mv) (content (append vs e) m)
        × Answers (append vs e) (record { ring = m; pc = store_at s.pc i p }) i mv
  Reach-QueueStep {vs = vs} {e = e} two small r i mv = (
    Move-QueueStep i (Reach-Inv two (omega (arith, length-append-le vs e)) r) refl small mv,
    λ a took.
        let (h, at_h, pushed) =
          dequeued_position i (Reach-Inv two (omega (arith, length-append-le vs e)) r) refl mv a
            took in
        (
          h,
          at_h,
          λ v vs' s' run small' stored.
              let read = (Reach-pop_store two small' (Run-Reach (later r i mv) run) stored).0 in
              let kept = get_elem?-Run h a pushed run in some_injective (sym read ∙ kept),
        ),
  )
