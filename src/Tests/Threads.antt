-- ===== src/Tests/Threads.antt =====
-- The ring and the latch with a few threads.
use hyprie.Base.{
  ℕ, ◌+◌, ◌^◌, ◌≡◌, ◌≢◌, ◌<◌, ◌≤◌, ◌⊎◌, some, none, refl, arith, [], ◌∷◌, get_elem?, ◌-ℤ◌,
}
use hyprie.Thread.MpmcRing.{
  Ring, Pc, Move, store_at, crashed, System, Reach, start, later, call_push, load_tail, test_push,
  win_push, write_value, release_push, call_pop, load_head, test_pop, win_pop, read_value, slot,
  difference, push_branch, pop_branch, init, store_sequences,
}
use hyprie.Thread.MpmcRing.Inv.{reads, Writer, Reader}
use hyprie.Thread.MpmcRing.Queue.{
  dequeue, action, content, QueueStep, Answers, Reach-QueueStep, Reach-pop_store, Reach-bounds,
}
use hyprie.Thread.MpmcRing.Failure.{push_returned-full, pop_returned-empty}

abbrev zeros : ℕ → ℕ
zeros i = 0

-- Thread 0 has taken the first of two slots for the value 7.
unfoldable claimed : (s : System ℕ) × Reach 1 zeros (7 ∷ []) s
unfolding slot difference push_branch init store_sequences ◌-ℤ◌
claimed = (
  _,
  later (later (later (later start 0 (call_push 7)) 0 load_tail) 0 test_push) 0 (win_push refl),
)

-- Thread 1 has read it.
unfoldable taken : (s : System ℕ) × Reach 1 zeros (7 ∷ []) s
unfolding claimed slot difference push_branch pop_branch init store_sequences ◌-ℤ◌
taken = (
  _,
  later
      (later
        (later
          (later (later (later (later claimed.1 0 write_value) 0 release_push) 1 call_pop) 1
            load_head)
          1 test_pop)
        1 (win_pop refl))
      1 read_value,
)

Reach-pop_store_example :
    (get_elem? {A = ℕ} (7 ∷ []) 0 ≡ some 7)
    × (0 < taken.0.ring.head)
    × ((j : ℕ) → reads (taken.0.pc j) ≡ some 0 → j ≡ 1)
unfolding taken claimed slot difference push_branch pop_branch init store_sequences ◌-ℤ◌
Reach-pop_store_example = Reach-pop_store {i = 1} (omega arith) (omega arith) taken.1 refl

Reach-bounds_example :
    ((i : ℕ) → taken.0.pc i ≢ crashed)
    × (taken.0.ring.tail ≡ 1)
    × (taken.0.ring.head ≤ taken.0.ring.tail)
    × (taken.0.ring.tail ≤ taken.0.ring.head + 2 ^ 1)
Reach-bounds_example = Reach-bounds (omega arith) (omega arith) taken.1

-- Thread 1 is about to take the value out.
unfoldable ready : (s : System ℕ) × Reach 1 zeros (7 ∷ []) s
unfolding claimed slot difference push_branch pop_branch init store_sequences ◌-ℤ◌
ready = (
  _,
  later
      (later (later (later (later claimed.1 0 write_value) 0 release_push) 1 call_pop) 1 load_head)
      1 test_pop,
)

unfoldable taking : (m : Ring ℕ) × (p : Pc ℕ) × Move 1 ready.0.ring (ready.0.pc 1) none m p
unfolding ready claimed slot difference push_branch pop_branch init store_sequences ◌-ℤ◌
taking = (_, _, win_pop refl)

Reach-QueueStep_example :
    QueueStep {A = ℕ}
      (2 ^ 1)
      (content (7 ∷ []) ready.0.ring)
      (action taking.2)
      (content (7 ∷ []) taking.0)
    × Answers (7 ∷ []) (record { ring = taking.0; pc = store_at ready.0.pc 1 taking.1 }) 1 taking.2
Reach-QueueStep_example = Reach-QueueStep (omega arith) (omega arith) ready.1 1 taking.2

-- The value 7 leaves the queue empty.
taking_action : (action taking.2 ≡ dequeue 7) × (content {A = ℕ} (7 ∷ []) taking.0 ≡ [])
unfolding taking ready claimed slot difference push_branch pop_branch init store_sequences ◌-ℤ◌
taking_action = (refl, refl)

-- Threads 0 and 1 have filled both slots, and thread 2 has loaded the tail.
unfoldable filled : (s : System ℕ) × Reach 1 zeros (7 ∷ 8 ∷ []) s
unfolding slot difference push_branch pop_branch init store_sequences ◌-ℤ◌
filled = (
  _,
  later
      (later
        (later
          (later
            (later
              (later
                (later
                  (later
                    (later
                      (later
                        (later (later (later (later start 0 (call_push 7)) 0 load_tail) 0 test_push)
                          0 (win_push refl))
                        0 write_value)
                      0 release_push)
                    1 (call_push 8))
                  1 load_tail)
                1 test_push)
              1 (win_push refl))
            1 write_value)
          1 release_push)
        2 (call_push 9))
      2 load_tail,
)

push_returned-full_example :
    (filled.0.ring.tail ≡ filled.0.ring.head + 2 ^ 1)
    ⊎ ((q : ℕ) × (filled.0.ring.tail ≡ q + 2 ^ 1) × Reader filled.0.pc q)
unfolding filled slot difference push_branch pop_branch init store_sequences ◌-ℤ◌
push_returned-full_example = push_returned-full 2 9 2 (omega arith) (omega arith) filled.1 refl refl

-- Thread 0 has loaded the head of the empty ring.
unfoldable asking : (s : System ℕ) × Reach 1 zeros [] s
unfolding slot difference push_branch pop_branch init store_sequences ◌-ℤ◌
asking = (_, later (later start 0 call_pop) 0 load_head)

pop_returned-empty_example :
    (asking.0.ring.head ≡ asking.0.ring.tail) ⊎ Writer asking.0.pc asking.0.ring.head
unfolding asking slot difference push_branch pop_branch init store_sequences ◌-ℤ◌
pop_returned-empty_example = pop_returned-empty 0 0 (omega arith) (omega arith) asking.1 refl refl
