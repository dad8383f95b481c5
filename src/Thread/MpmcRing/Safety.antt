-- ===== src/Thread/MpmcRing/Safety.antt =====
-- What holds in every reachable state of the ring.
use hyprie.Base.{
  ℕ, ◌+◌, ◌^◌, ◌≡◌, ◌<◌, ◌≤◌, inl, inr, false, Option, none, some, List, length, length-snoc, refl,
  arith, u32,
}
use hyprie.Thread.MpmcRing.{
  Ring, Pc, push_load, push_test, push_cas, push_returned, pop_load, pop_test, pop_cas,
  pop_returned, slot, store_at, difference, push_branch, pop_branch, Move, System, Reach, append,
  start, later, call_push, load_tail, test_push, win_push, lose_push, write_value, release_push,
  finish_push, call_pop, load_head, test_pop, win_pop, lose_pop, read_value, release_pop,
  finish_pop,
}
use hyprie.Thread.MpmcRing.Slots.{difference-cases}
use hyprie.Thread.MpmcRing.Inv.{Inv, init-Inv, silent-Inv}
use hyprie.Thread.MpmcRing.Pushing.{win_push-Inv}
use hyprie.Thread.MpmcRing.Writing.{write-Inv}
use hyprie.Thread.MpmcRing.Writing
use hyprie.Thread.MpmcRing.Popping.{win_pop-Inv}
use hyprie.Thread.MpmcRing.Popping

module _ {A : Type 0} where
  module _ {k : ℕ} {vs : List A} {m : Ring A} {pc : ℕ → Pc A} (v : Inv k vs m pc) (i : ℕ) where
    test_push-Inv :
        {a : A} {t : ℕ}
        → pc i ≡ push_test a t
        → Inv k vs m (store_at pc i (push_branch a t (difference (m.sequence (slot k t)) t)))
    unfolding push_branch
    test_push-Inv {a} {t} at_i =
        let own : t ≤ m.tail = rw at_i at (v.local i) in
        elim (difference-cases (m.sequence (slot k t)) t (v.bounded (slot k t))
          (omega (arith, v.pushed, v.small))) [
            | inl (e, d) ↦
                rw d (silent-Inv i (push_cas a t) v (ground arith) (ground arith) (own, λ _. e))
            | inr (inl (n, lt, d)) ↦
                rw d (silent-Inv i (push_load a) v (ground arith) (ground arith) tt)
            | inr (inr (n, lt, d)) ↦
                rw d (silent-Inv i (push_returned false) v (ground arith) (ground arith) tt)
          ]

    test_pop-Inv :
        {h : ℕ}
        → pc i ≡ pop_test h
        → Inv k vs m
            (store_at pc i (pop_branch h (difference (m.sequence (slot k h)) (u32 (h + 1)))))
    unfolding pop_branch
    test_pop-Inv {h} at_i =
        let own : h ≤ m.head = rw at_i at (v.local i) in
        let next : u32 (h + 1) ≡ h + 1 = omega (arith, v.pushed, v.small, v.order, v.two) in
        elim (difference-cases (m.sequence (slot k h)) (u32 (h + 1)) (v.bounded (slot k h))
          (omega (arith, next, v.pushed, v.small, v.order, v.two))) [
            | inl (e, d) ↦ rw d (
                silent-Inv i (pop_cas h) v (ground arith) (ground arith)
                  (own, λ _. omega (arith, e, next)))
            | inr (inl (n, lt, d)) ↦ rw d (silent-Inv i pop_load v (ground arith) (ground arith) tt)
            | inr (inr (n, lt, d)) ↦
                rw d (silent-Inv i (pop_returned none) v (ground arith) (ground arith) tt)
          ]

    pub Move-Inv :
        {p p' : Pc A} {e : Option A} {m' : Ring A}
        → pc i ≡ p
        → length (append vs e) + 2 ^ k < 2147483648
        → Move k m p e m' p'
        → Inv k (append vs e) m' (store_at pc i p')
    Move-Inv at_i small (call_push a) = silent-Inv i _ v (ground arith) (ground arith) tt
    Move-Inv at_i small load_tail = silent-Inv i _ v (ground arith) (ground arith) (omega arith)
    Move-Inv at_i small test_push = test_push-Inv at_i
    Move-Inv at_i small (win_push now) = win_push-Inv v i at_i now small
    Move-Inv at_i small lose_push = silent-Inv i _ v (ground arith) (ground arith) (omega arith)
    Move-Inv at_i small write_value = write-Inv v i at_i
    Move-Inv at_i small release_push = Writing.release-Inv v i at_i
    Move-Inv at_i small finish_push = silent-Inv i _ v (ground arith) (ground arith) tt
    Move-Inv at_i small call_pop = silent-Inv i _ v (ground arith) (ground arith) tt
    Move-Inv at_i small load_head = silent-Inv i _ v (ground arith) (ground arith) (omega arith)
    Move-Inv at_i small test_pop = test_pop-Inv at_i
    Move-Inv at_i small (win_pop now) = win_pop-Inv v i at_i now
    Move-Inv at_i small lose_pop = silent-Inv i _ v (ground arith) (ground arith) tt
    Move-Inv at_i small (read_value {h}) =
        silent-Inv i _ v (ground arith) (ground arith) (rw at_i at (v.local i))
    Move-Inv at_i small release_pop = Popping.release-Inv v i at_i
    Move-Inv at_i small finish_pop = silent-Inv i _ v (ground arith) (ground arith) tt

  pub length-append-le : (vs : List A) (e : Option A) → length vs ≤ length (append vs e)
  length-append-le vs none = omega arith
  length-append-le vs (some v) = omega (arith, length-snoc vs v)

  pub Reach-Inv :
      {k : ℕ} {values : ℕ → A} {vs : List A} {s : System A}
      → 2 ≤ 2 ^ k
      → length vs + 2 ^ k < 2147483648
      → Reach k values vs s
      → Inv k vs s.ring s.pc
  Reach-Inv {k} {values} two small start = init-Inv k values two (omega arith)
  Reach-Inv two small (later {vs} {s} {e} r i mv) =
      Move-Inv (Reach-Inv two (omega (arith, length-append-le vs e)) r) i refl small mv
