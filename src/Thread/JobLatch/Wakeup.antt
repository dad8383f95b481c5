-- ===== src/Thread/JobLatch/Wakeup.antt =====
-- No wake-up is lost.
use hyprie.Base.{
  ℕ, ◌≡◌, ◌<◌, ◌⊎◌, inl, inr, Bool, true, false, some, ◌==◌, ==_iff, refl, arith, Bool-cases,
}
use hyprie.Thread.JobLatch.{
  Pc, idle, done_sub, done_lock, done_notify, done_unlock, wait_load, wait_lock, wait_test,
  wait_sleep, asleep, wait_unlock, Latch, Move, System, Reach, start, later, notify_all, store_at,
  wake, after_load, after_test, add, call_done, subtract, lock_done, unlock_done, call_wait,
  load_count, lock_wait, test_count, fall_asleep, wake_up, unlock_wait,
}

-- The thread holds the mutex.
abbrev pub holds : Pc → Bool
holds wait_test = true
holds wait_sleep = true
holds wait_unlock = true
holds done_notify = true
holds done_unlock = true
holds p = false

-- The thread sleeps, or is about to.
abbrev pub sleeps : Pc → Bool
sleeps asleep = true
sleeps wait_sleep = true
sleeps p = false

-- The thread is going to notify.
abbrev pub notifies : Pc → Bool
notifies done_lock = true
notifies done_notify = true
notifies p = false

pub record Inv (m : Latch) (pc : ℕ → Pc) : Type 0 where
  pub bounded : m.pending_count < 4294967296
  pub owned : (i : ℕ) → holds (pc i) ≡ true → m.owner ≡ some i
  pub watched :
      (i : ℕ) → sleeps (pc i) ≡ true → m.pending_count ≡ 0 → (j : ℕ) × (notifies (pc j) ≡ true)

module _ {m : Latch} {pc : ℕ → Pc} (v : Inv m pc) (i : ℕ) where
  moved :
      (p' : Pc) (f : Pc → Bool) (j : ℕ)
      → f (store_at pc i p' j) ≡ true
      → (f p' ≡ true) ⊎ (f (pc j) ≡ true)
  moved p' f j e = elim (Bool-cases (i == j)) [
    | inl same ↦ inl (rw same at e)
    | inr other ↦ inr (rw other at e)
  ]

  stayed :
      (p' : Pc) (f : Pc → Bool) (j : ℕ)
      → (f (pc i) ≡ true → f p' ≡ true)
      → f (pc j) ≡ true
      → f (store_at pc i p' j) ≡ true
  stayed p' f j keep e = elim (Bool-cases (i == j)) [
    | inl same ↦ rw same (keep (rw ((==_iff i j).0 same) e))
    | inr other ↦ rw other e
  ]

  -- A step of a thread that neither falls asleep nor stops being a notifier.
  quiet-watched :
      (p' : Pc)
      → (notifies (pc i) ≡ true → notifies p' ≡ true)
      → (sleeps p' ≡ true → sleeps (pc i) ≡ true)
      → (j : ℕ) → sleeps (store_at pc i p' j) ≡ true
      → m.pending_count ≡ 0
      → (l : ℕ) × (notifies (store_at pc i p' l) ≡ true)
  quiet-watched p' keep calm j s z = let (l, n) = w in (l, stayed p' notifies l keep n)
    where
      w : (l : ℕ) × (notifies (pc l) ≡ true)
      w = elim (moved p' sleeps j s) [ inl e ↦ v.watched i (calm e) z | inr e ↦ v.watched j e z ]

  Move-Inv : {p p' : Pc} {m' : Latch} → pc i ≡ p → Move i m p m' p' → Inv m' (store_at pc i p')
  Move-Inv at_i (add n small) = record {
    bounded = omega arith;
    owned = λ j h. ground (arith, v.owned j);
    watched = λ j s z. quiet-watched idle (λ n. ground arith) (λ n. ground arith) j s (omega arith);
  }
  Move-Inv at_i call_done = record {
    bounded = v.bounded;
    owned = λ j h. ground (arith, v.owned j);
    watched = quiet-watched done_sub (λ n. ground arith) (λ n. ground arith);
  }
  Move-Inv at_i subtract = record {
    bounded = omega arith;
    owned = λ j h. ground (arith, v.owned j);
    watched = λ j s z. (i, ground (arith, v.bounded));
  }
  Move-Inv at_i (lock_done free) = record {
    bounded = v.bounded;
    owned = λ j h. ground (arith, v.owned j);
    watched = quiet-watched done_notify (λ n. ground arith) (λ n. ground arith);
  }
  Move-Inv at_i unlock_done = record {
    bounded = v.bounded;
    owned = λ j h. ground (arith, v.owned j, v.owned i);
    watched = quiet-watched idle (λ n. ground arith) (λ n. ground arith);
  }
  Move-Inv at_i call_wait = record {
    bounded = v.bounded;
    owned = λ j h. ground (arith, v.owned j);
    watched = quiet-watched wait_load (λ n. ground arith) (λ n. ground arith);
  }
  Move-Inv at_i load_count = record {
    bounded = v.bounded;
    owned = λ j h. ground (arith, v.owned j);
    watched = quiet-watched (after_load m.pending_count) (λ n. ground arith) (λ n. ground arith);
  }
  Move-Inv at_i (lock_wait free) = record {
    bounded = v.bounded;
    owned = λ j h. ground (arith, v.owned j);
    watched = quiet-watched wait_test (λ n. ground arith) (λ n. ground arith);
  }
  Move-Inv at_i test_count = record {
    bounded = v.bounded;
    owned = λ j h. ground (arith, v.owned j, v.owned i);
    watched = λ j s z.
        quiet-watched (after_test m.pending_count) (λ n. ground arith) (λ n. ground arith) j s z;
  }
  Move-Inv at_i fall_asleep = record {
    bounded = v.bounded;
    owned = λ j h. ground (arith, v.owned j, v.owned i);
    watched = quiet-watched asleep (λ n. ground arith) (λ n. ground arith);
  }
  Move-Inv at_i wake_up = record {
    bounded = v.bounded;
    owned = λ j h. ground (arith, v.owned j);
    watched = quiet-watched wait_lock (λ n. ground arith) (λ n. ground arith);
  }
  Move-Inv at_i unlock_wait = record {
    bounded = v.bounded;
    owned = λ j h. ground (arith, v.owned j, v.owned i);
    watched = quiet-watched idle (λ n. ground arith) (λ n. ground arith);
  }

  -- The notifier holds the mutex, so that no thread is between its test and its sleep.
  notify_all-Inv : pc i ≡ done_notify → Inv m (store_at (λ j. wake (pc j)) i done_unlock)
  notify_all-Inv at_i = record {
    bounded = v.bounded;
    owned = λ j h. ground (arith, v.owned j, v.owned i);
    watched = λ j s z. absurd (ground (arith, v.owned j, v.owned i));
  }

pub Reach-Inv : {s : System} → Reach s → Inv s.latch s.pc
Reach-Inv start = record {
  bounded = omega arith;
  owned = λ i h. absurd (ground arith);
  watched = λ i h. absurd (ground arith);
}
Reach-Inv (later r i mv) = Move-Inv (Reach-Inv r) i refl mv
Reach-Inv (notify_all r i e) = notify_all-Inv (Reach-Inv r) i e

notifies-cases : (p : Pc) → notifies p ≡ true → (p ≡ done_lock) ⊎ (p ≡ done_notify)
notifies-cases done_lock e = inl refl
notifies-cases done_notify e = inr refl
notifies-cases _ e = absurd (cc)

-- In every reachable state, while a thread sleeps in `wait` with the count at 0, another thread is
-- on its way to notify it: it is about to take the mutex for that, or has it.
pub no_lost_wakeup :
    {s : System} (i : ℕ)
    → Reach s
    → s.pc i ≡ asleep
    → s.latch.pending_count ≡ 0
    → (j : ℕ) × ((s.pc j ≡ done_lock) ⊎ (s.pc j ≡ done_notify))
no_lost_wakeup {s} i r e z =
    let (j, n) = (Reach-Inv r).watched i (rw e refl) z in (j, notifies-cases (s.pc j) n)
