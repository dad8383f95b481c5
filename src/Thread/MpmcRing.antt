-- ===== src/Thread/MpmcRing.antt =====
-- `MpmcRing` of hpr/thread/mpmc_ring.hpp, as the atomic steps of threads that run in any order.
pub mod Slots
pub mod Inv
pub mod Pushing
pub mod Writing
pub mod Popping
pub mod Safety
pub mod Queue
pub mod Failure
use hyprie.Base.{
  ℕ, zero, suc, ◌+◌, ◌-◌, ◌^◌, ◌≡◌, ◌<◌, Bool, true, false, Option, none, some, List, [], ◌==◌, ltb,
  leb, if◌then◌else◌, u32, bit_and, ℤ, pos, negsuc, ◌-ℤ◌, pos_part, neg_part, snoc,
}

-- The two counters and, for each slot, its sequence number and its value.
pub record Ring (A : Type 0) : Type 0 where
  pub head : ℕ
  pub tail : ℕ
  pub sequence : ℕ → ℕ
  pub value : ℕ → A

-- Where a thread stands in `push` or `pop`, with its local variables: `t` is `tail`, `h` is `head`.
-- At `crashed` the thread has computed an overflowing difference.
pub data Pc (A : Type 0) : Type 0 where
  idle : Pc A
  push_load : A → Pc A
  push_test : A → ℕ → Pc A
  push_cas : A → ℕ → Pc A
  push_write : A → ℕ → Pc A
  push_store : A → ℕ → Pc A
  push_returned : Bool → Pc A
  pop_load : Pc A
  pop_test : ℕ → Pc A
  pop_cas : ℕ → Pc A
  pop_read : ℕ → Pc A
  pop_store : ℕ → A → Pc A
  pop_returned : Option A → Pc A
  crashed : Pc A

-- `static_cast<int32_t>` of a `uint32_t`.
abbrev pub to_i32 : ℕ → ℤ
to_i32 n = if ltb n 2147483648 then pos n else negsuc (4294967295 - n)

-- `diff`, a difference of two `int32_t`: `none` where it overflows.
unfoldable pub difference : ℕ → ℕ → Option ℤ
unfolding ◌-ℤ◌
difference a b =
    let d = to_i32 a -ℤ to_i32 b in
    if leb (pos_part d) 2147483647
    then if leb (neg_part d) 2147483648 then some d else none
    else none

abbrev pub store_at {ℓ} : {A : Type ℓ} → (ℕ → A) → ℕ → A → ℕ → A
store_at f i a j = if i == j then a else f j

module _ (k : ℕ) where
  -- The capacity is a power of two.
  abbrev pub capacity : ℕ
  capacity = 2 ^ k

  -- `position & (Capacity - 1)`
  unfoldable pub slot : ℕ → ℕ
  slot position = bit_and position (2 ^ k - 1)

-- The loop of the constructor and of `reset`, over `n` slots from slot `i` on.
unfoldable pub store_sequences : (ℕ → ℕ) → ℕ → ℕ → ℕ → ℕ
store_sequences f i zero = f
store_sequences f i (suc n) = store_sequences (store_at f i i) (i + 1) n

module _ {A : Type 0} where
  -- The constructor; the values are whatever the slots hold.
  unfoldable pub init : ℕ → (ℕ → A) → Ring A
  init k values = record {
    head = 0;
    tail = 0;
    sequence = store_sequences (λ i. 0) 0 (2 ^ k);
    value = values;
  }

  unfoldable pub reset : ℕ → Ring A → Ring A
  reset k m = record m { head = 0; tail = 0; sequence = store_sequences m.sequence 0 (2 ^ k) }

  unfoldable pub approx_size : Ring A → ℕ
  approx_size m = u32 (m.tail + 4294967296 - m.head)

  -- The branch on `diff` in `push`.
  unfoldable pub push_branch : A → ℕ → Option ℤ → Pc A
  push_branch v t none = crashed
  push_branch v t (some (pos zero)) = push_cas v t
  push_branch v t (some (pos (suc n))) = push_load v
  push_branch v t (some (negsuc n)) = push_returned false

  -- The branches on `diff` in `pop`.
  unfoldable pub pop_branch : ℕ → Option ℤ → Pc A
  pop_branch h none = crashed
  pop_branch h (some (pos zero)) = pop_cas h
  pop_branch h (some (pos (suc n))) = pop_load
  pop_branch h (some (negsuc n)) = pop_returned none

-- One atomic step of a thread. The third index is the value that a successful exchange of `m_tail`
-- appends to the queue. A weak exchange may fail without a reason.
pub data Move {A : Type 0} (k : ℕ) (m : Ring A) : Pc A → Option A → Ring A → Pc A → Type 0 where
  call_push : (v : A) → Move k m idle none m (push_load v)
  load_tail : {v : A} → Move k m (push_load v) none m (push_test v m.tail)
  test_push :
      {v : A} {t : ℕ}
      → Move k m (push_test v t) none m (push_branch v t (difference (m.sequence (slot k t)) t))
  win_push :
      {v : A} {t : ℕ}
      → m.tail ≡ t
      → Move k m (push_cas v t) (some v) (record m { tail = u32 (t + 1) }) (push_write v t)
  lose_push : {v : A} {t : ℕ} → Move k m (push_cas v t) none m (push_test v m.tail)
  write_value :
      {v : A} {t : ℕ}
      → Move k m
          (push_write v t)
          none
          (record m { value = store_at m.value (slot k t) v })
          (push_store v t)
  release_push :
      {v : A} {t : ℕ}
      → Move k m
          (push_store v t)
          none
          (record m { sequence = store_at m.sequence (slot k t) (u32 (t + 1)) })
          (push_returned true)
  finish_push : {b : Bool} → Move k m (push_returned b) none m idle
  call_pop : Move k m idle none m pop_load
  load_head : Move k m pop_load none m (pop_test m.head)
  test_pop :
      {h : ℕ}
      → Move k m
          (pop_test h)
          none
          m
          (pop_branch h (difference (m.sequence (slot k h)) (u32 (h + 1))))
  win_pop :
      {h : ℕ}
      → m.head ≡ h
      → Move k m (pop_cas h) none (record m { head = u32 (h + 1) }) (pop_read h)
  lose_pop : {h : ℕ} → Move k m (pop_cas h) none m pop_load
  read_value : {h : ℕ} → Move k m (pop_read h) none m (pop_store h (m.value (slot k h)))
  release_pop :
      {h : ℕ} {v : A}
      → Move k m
          (pop_store h v)
          none
          (record m { sequence = store_at m.sequence (slot k h) (u32 (h + 2 ^ k)) })
          (pop_returned (some v))
  finish_pop : {r : Option A} → Move k m (pop_returned r) none m idle

-- Threads are numbers.
pub record System (A : Type 0) : Type 0 where
  pub ring : Ring A
  pub pc : ℕ → Pc A

abbrev pub append : {A : Type 0} → List A → Option A → List A
append vs none = vs
append vs (some v) = snoc vs v

-- The index is the list of the values pushed so far, in the order of the exchanges.
pub data Reach {A : Type 0} (k : ℕ) (values : ℕ → A) : List A → System A → Type 0 where
  start : Reach k values [] (record { ring = init k values; pc = λ i. idle })
  later :
      {vs : List A} {s : System A} {e : Option A} {m : Ring A} {p : Pc A}
      → Reach k values vs s
      → (i : ℕ) → Move k s.ring (s.pc i) e m p
      → Reach k values (append vs e) (record { ring = m; pc = store_at s.pc i p })
