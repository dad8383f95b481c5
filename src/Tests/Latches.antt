-- ===== src/Tests/Latches.antt =====
-- The latch with a few threads.
use hyprie.Base.{ℕ, ◌≡◌, ◌⊎◌, refl, arith}
use hyprie.Thread.JobLatch.{
  idle, done_lock, done_notify, System, Reach, start, later, add, call_done, subtract, call_wait,
  load_count, lock_wait, test_count, fall_asleep,
}
use hyprie.Thread.JobLatch.Wakeup.{no_lost_wakeup}

-- Thread 1 sleeps, and thread 2 has brought the count to 0.
unfoldable sleeping : (s : System) × Reach s
sleeping = (
  _,
  later
      (later
        (later
          (later
            (later (later (later (later start 0 (add 1 (omega arith))) 1 call_wait) 1 load_count) 1
              (lock_wait refl))
            1 test_count)
          1 fall_asleep)
        2 call_done)
      2 subtract,
)

no_lost_wakeup_example : (j : ℕ) × ((sleeping.0.pc j ≡ done_lock) ⊎ (sleeping.0.pc j ≡ done_notify))
unfolding sleeping
no_lost_wakeup_example = no_lost_wakeup 1 sleeping.1 refl refl

-- `wait` returns in thread 1 while thread 2 is still about to lock the mutex of the latch.
unfoldable returned_early : (s : System) × Reach s
returned_early = (
  _,
  later
      (later (later (later (later start 0 (add 1 (omega arith))) 2 call_done) 2 subtract) 1
        call_wait)
      1 load_count,
)

early_return : (returned_early.0.pc 1 ≡ idle) × (returned_early.0.pc 2 ≡ done_lock)
unfolding returned_early
early_return = (refl, refl)
