-- ===== src/Thread/JobLatch.antt =====
-- `JobLatch` of hpr/thread/job_latch.hpp, as the atomic steps of threads that run in any order.
pub mod Wakeup
use hyprie.Base.{
  ℕ, zero, suc, ◌+◌, ◌-◌, ◌≡◌, ◌≢◌, ◌<◌, Bool, true, false, Option, none, some, ◌==◌, if◌then◌else◌,
  u32,
}

-- Where a thread stands in `done` or `wait`; at the first four of the last six it holds the mutex.
pub data Pc : Type 0 where
  idle : Pc
  done_sub : Pc
  done_lock : Pc
  wait_load : Pc
  wait_lock : Pc
  asleep : Pc
  wait_test : Pc
  wait_sleep : Pc
  wait_unlock : Pc
  done_notify : Pc
  done_unlock : Pc

-- The count and the owner of the mutex.
pub record Latch : Type 0 where
  pub pending_count : ℕ
  pub owner : Option ℕ

-- The branch of `done` on the count before the subtraction.
abbrev pub after_sub : ℕ → Pc
after_sub count = if count == 1 then done_lock else idle

-- The early return of `wait`.
abbrev pub after_load : ℕ → Pc
after_load count = if count == 0 then idle else wait_lock

-- The predicate of `m_condition.wait`, under the mutex.
abbrev pub after_test : ℕ → Pc
after_test count = if count == 0 then wait_unlock else wait_sleep

-- `notify_all`: every thread that sleeps goes on to take the mutex again.
abbrev pub wake : Pc → Pc
wake asleep = wait_lock
wake p = p

-- A step of thread `i` that leaves the other threads where they are. A thread may wake up without a
-- notification, and the callers of `add` keep the count below 2^32.
pub data Move (i : ℕ) (m : Latch) : Pc → Latch → Pc → Type 0 where
  add :
      (additional_count : ℕ)
      → m.pending_count + additional_count < 4294967296
      → Move i m idle (record m { pending_count = u32 (m.pending_count + additional_count) }) idle
  call_done : Move i m idle m done_sub
  subtract :
      Move i m done_sub
        (record m { pending_count = u32 (m.pending_count + 4294967295) })
        (after_sub m.pending_count)
  lock_done : m.owner ≡ none → Move i m done_lock (record m { owner = some i }) done_notify
  unlock_done : Move i m done_unlock (record m { owner = none }) idle
  call_wait : Move i m idle m wait_load
  load_count : Move i m wait_load m (after_load m.pending_count)
  lock_wait : m.owner ≡ none → Move i m wait_lock (record m { owner = some i }) wait_test
  test_count : Move i m wait_test m (after_test m.pending_count)
  fall_asleep : Move i m wait_sleep (record m { owner = none }) asleep
  wake_up : Move i m asleep m wait_lock
  unlock_wait : Move i m wait_unlock (record m { owner = none }) idle

abbrev pub store_at : (ℕ → Pc) → ℕ → Pc → ℕ → Pc
store_at pc i p j = if i == j then p else pc j

pub record System : Type 0 where
  pub latch : Latch
  pub pc : ℕ → Pc

pub data Reach : System → Type 0 where
  start : Reach (record { latch = record { pending_count = 0; owner = none }; pc = λ i. idle })
  later :
      {s : System} {m : Latch} {p : Pc}
      → Reach s
      → (i : ℕ) → Move i s.latch (s.pc i) m p
      → Reach (record { latch = m; pc = store_at s.pc i p })
  notify_all :
      {s : System}
      → Reach s
      → (i : ℕ) → s.pc i ≡ done_notify
      → Reach (record s { pc = store_at (λ j. wake (s.pc j)) i done_unlock })
