-- ===== src/Tests/Store.antt =====
-- The handle store over lists.
use hyprie.Base.{
  ℕ, zero, suc, ◌+◌, ◌≡◌, true, false, none, some, [], ◌∷◌, refl, arith, list_vault, total,
  get_elem?, if◌then◌else◌, length, u32,
}
use hyprie.Resource.HandleStore.{
  Handle, Slot, HandleStore, init, create_at, construct, destruct, create, destroy, get, live_count,
  is_valid, destruct_all, move_assign,
}
use hyprie.Resource.HandleStore.Inv.{Inv, SlotOk, weight, bit, lives}
use hyprie.Resource.HandleStore.Teardown.{destruct_all-dead, move_assign-Inv}
use hyprie.Resource.HandleStore.View.{
  view, same, pointer_to, get-view, create_refines, destroy_refines,
}
use hyprie.Resource.HandleStore.Stale.{creates, destroys, step, run, run-stale}

abbrev slot_of : ℕ → ℕ → Slot ℕ
slot_of a m = record { storage = some a; magic = m; active = true }

-- One object, 7, in its first generation.
abbrev pub one_object : HandleStore list_vault ℕ
one_object = record { slots = slot_of 7 1 ∷ []; freed = []; active_count = 1 }

abbrev pub first : Handle
first = record { index = 0; magic = 1 }

one_object-SlotOk : (i : ℕ) (sl : Slot ℕ) → get_elem? one_object.slots i ≡ some sl → SlotOk sl
one_object-SlotOk zero sl e = ground arith
one_object-SlotOk (suc i) sl e = absurd (ground arith)

one_object-dead_freed :
    (i : ℕ)
    → (elim (get_elem? one_object.slots i) [ none ↦ none | some sl ↦ some sl.active ]) ≡ some false
    → (k : ℕ) × (get_elem? {A = ℕ} [] k ≡ some i)
one_object-dead_freed zero e = absurd (ground arith)
one_object-dead_freed (suc i) e = absurd (ground arith)

one_object-total : 1 ≡ total list_vault weight one_object.slots 1
unfolding total
one_object-total = refl

pub one_object-Inv : Inv list_vault one_object
one_object-Inv = record {
  slot_ok = one_object-SlotOk;
  freed_dead = λ k i e. absurd (ground arith);
  freed_once = λ j k i ej ek. absurd (ground arith);
  dead_freed = one_object-dead_freed;
  count = one_object-total;
  complement = omega arith;
  small = omega arith;
}

-- `create` in a new store gives that state.
create-first : create list_vault (init list_vault) 7 ≡ some (one_object, first)
unfolding create create_at construct
create-first = refl

-- A second generation in the same slot, and the old handle.
reuse :
    run list_vault one_object (destroys first ∷ creates 8 ∷ destroys first ∷ [])
    ≡ some (record { slots = slot_of 8 3 ∷ []; freed = []; active_count = 1 })
unfolding run step create create_at construct destroy destruct
reuse = refl

get-view_example :
    get list_vault one_object (record { index = 0; magic = 3 })
    ≡ some (pointer_to (view list_vault one_object (record { index = 0; magic = 3 })))
get-view_example = get-view list_vault (record { index = 0; magic = 3 }) one_object-Inv

create_refines_example :
    (s' : HandleStore list_vault ℕ) × (h : Handle) × (create list_vault one_object 9 ≡ some (s', h))
    × Inv list_vault s'
    × (is_valid h ≡ true)
    × (view list_vault one_object h ≡ none)
    × ((k : Handle)
        → view list_vault s' k ≡ (if same h k then some 9 else view list_vault one_object k))
    × (live_count list_vault s' ≡ live_count list_vault one_object + 1)
create_refines_example = create_refines list_vault 9 one_object-Inv (λ _. omega arith)

destroy_refines_example :
    (s' : HandleStore list_vault ℕ) × (destroy list_vault one_object first ≡ some s')
    × Inv list_vault s'
    × ((k : Handle)
        → view list_vault s' k ≡ (if same first k then none else view list_vault one_object k))
    × (live_count list_vault s' + bit (lives (view list_vault one_object first))
        ≡ live_count list_vault one_object)
destroy_refines_example = destroy_refines list_vault first one_object-Inv

abbrev emptied_once : HandleStore list_vault ℕ
emptied_once = record {
  slots = record { storage = none; magic = 2; active = false } ∷ [];
  freed = 0 ∷ [];
  active_count = 0;
}

run-stale_example :
    (t : HandleStore list_vault ℕ) × (run list_vault emptied_once (creates 8 ∷ destroys first ∷ [])
      ≡ some t)
    × Inv list_vault t
    × (view list_vault t first ≡ none)
unfolding destroy destruct
run-stale_example =
    run-stale list_vault first (creates 8 ∷ destroys first ∷ []) one_object-Inv refl refl
      (omega arith)

destruct_all-dead_example :
    (s' : HandleStore list_vault ℕ) × (destruct_all list_vault one_object ≡ some s')
    × (length s'.slots ≡ 1)
    × ((i : ℕ) (sl : Slot ℕ)
        → get_elem? one_object.slots i ≡ some sl
        → (sl' : Slot ℕ) × (get_elem? s'.slots i ≡ some sl')
          × (sl'.storage ≡ none)
          × (sl'.active ≡ false)
          × (sl'.magic ≡ (if sl.active then u32 (sl.magic + 1) else sl.magic)))
destruct_all-dead_example = destruct_all-dead list_vault one_object-Inv

move_assign-Inv_example :
    (rest : HandleStore list_vault ℕ) × (move_assign list_vault [] [] emptied_once one_object
      ≡ some (one_object, rest))
    × Inv list_vault rest
move_assign-Inv_example = move_assign-Inv list_vault [] [] emptied_once refl refl one_object-Inv
