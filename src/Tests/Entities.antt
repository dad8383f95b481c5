-- ===== src/Tests/Entities.antt =====
-- Racks and registries over lists.
use hyprie.Base.{
  Option, List, ℕ, zero, suc, ◌+◌, ◌≡◌, ◌↔◌, ◌<◌, false, none, some, [], ◌∷◌, refl, arith,
  list_vault, total, get_elem?, ◌>>=◌, ◌≤◌,
}
use mathlib.Core.Path.{subst}
use mathlib.Core.Option.{some-injective}
use hyprie.Entity.Rack.{Rack, invalid_slot}
use hyprie.Entity.Rack
use hyprie.Entity.Rack.Inv as RackInv
use hyprie.Entity.Rack.Add.{Added, add-Added}
use hyprie.Entity.Rack.Erase.{Erased, erase_entity-Erased}
use hyprie.Entity.Rack.Each.{calls, entries, own, note, each-calls, each-get}
use hyprie.Entity.Registry.{
  Registry, create_entity, create_next, ensure_all, destroy_entity, retire, erase_all,
}
use hyprie.Entity.Registry
use hyprie.Entity.Registry.Inv
use hyprie.Entity.Registry.Inv.{flag_weight}
use hyprie.Entity.Registry.Racks.{AllInv, component}
use hyprie.Entity.Registry.Create.{Created, create_entity-Created}
use hyprie.Entity.Registry.Destroy.{Destroyed, destroy_entity-Destroyed}
use hyprie.Entity.Registry.Components.{Updated, add-Updated, remove-Updated}

-- Entity 2 with value 20, then entity 0 with value 5.
abbrev two : Rack list_vault ℕ
two = record {
  dense_entities = 2 ∷ 0 ∷ [];
  dense_values = 20 ∷ 5 ∷ [];
  sparse_index = 1 ∷ invalid_slot ∷ 0 ∷ [];
}

two-to_dense :
    (e slot : ℕ)
    → get_elem? two.sparse_index e ≡ some slot
    → ¬ (slot ≡ invalid_slot)
    → get_elem? two.dense_entities slot ≡ some e
two-to_dense zero slot h ne = ground arith
two-to_dense (suc zero) slot h ne = absurd (ground arith)
two-to_dense (suc (suc zero)) slot h ne = ground arith
two-to_dense (suc (suc (suc e))) slot h ne = absurd (ground arith)

two-to_sparse :
    (slot e : ℕ)
    → get_elem? two.dense_entities slot ≡ some e
    → get_elem? two.sparse_index e ≡ some slot
two-to_sparse zero e h = ground arith
two-to_sparse (suc zero) e h = ground arith
two-to_sparse (suc (suc slot)) e h = absurd (ground arith)

two-Inv : RackInv.Inv list_vault two
two-Inv = record {
  paired = refl;
  few = omega arith;
  to_dense = two-to_dense;
  to_sparse = two-to_sparse;
}

-- The last element takes the place of the first.
erase_first :
    Rack.erase_entity list_vault two 2
    ≡ some (record {
      dense_entities = 0 ∷ [];
      dense_values = 5 ∷ [];
      sparse_index = 0 ∷ invalid_slot ∷ invalid_slot ∷ [];
    })
unfolding Rack.erase_entity Rack.move_last Rack.drop_last
erase_first = refl

add-Added_example : Added list_vault two 4 9 (Rack.add list_vault two 4 9)
add-Added_example = add-Added list_vault 4 9 two-Inv (omega arith)

erase_entity-Erased_example : Erased list_vault two 2 (Rack.erase_entity list_vault two 2)
erase_entity-Erased_example = erase_entity-Erased list_vault 2 two-Inv

-- A callback that adds up the values and sets each to 0.
abbrev drain : ℕ → ℕ → ℕ → ℕ × ℕ
drain e t s = (0, s + t)

each-calls_example :
    (r' : Rack list_vault ℕ) × (Rack.each list_vault (own list_vault drain) two 0
      ≡ some (r', calls drain 0 (entries list_vault two)))
    × RackInv.Inv list_vault r'
    × ((k : ℕ)
        → RackInv.present list_vault (RackInv.component list_vault r' k)
          ≡ RackInv.present list_vault (RackInv.component list_vault two k))
each-calls_example = each-calls list_vault drain 0 two-Inv

each-get_example :
    (r' : Rack list_vault ℕ) × (noted : List (ℕ × ℕ)) × (Rack.each list_vault
        (own list_vault (note list_vault))
        two
        []
      ≡ some (r', noted))
    × ((e t : ℕ)
        → (Rack.get list_vault two e ≡ some (some t))
          ↔ ((i : ℕ) × (get_elem? noted i ≡ some (e, t))))
    × ((i j e t t' : ℕ)
        → get_elem? noted i ≡ some (e, t)
        → get_elem? noted j ≡ some (e, t')
        → i ≡ j)
each-get_example = each-get list_vault two-Inv

-- A callback may also change another element: this one sets the last value whenever it is called.
abbrev set_last : ℕ → ℕ → Rack list_vault ℕ → ℕ → Option (Rack list_vault ℕ × ℕ)
set_last e i r s =
    some (record r { dense_values = list_vault.store r.dense_values 1 (e + 1) }, s + 1)

each-set_last :
    Rack.each list_vault set_last two 0 ≡ some (record two { dense_values = 20 ∷ 1 ∷ [] }, 2)
unfolding Rack.each Rack.each_from
each-set_last = refl

-- Entity 0 is alive, with the component 5 of the only type.
abbrev only : Rack list_vault ℕ
only = record { dense_entities = 0 ∷ []; dense_values = 5 ∷ []; sparse_index = 0 ∷ [] }

abbrev world : Registry list_vault ℕ
world = record {
  racks = only ∷ [];
  recycled = [];
  generation = 1 ∷ [];
  alive_flags = 1 ∷ [];
  next_entity = 1;
  live_count = 1;
}

only-to_dense :
    (e slot : ℕ)
    → get_elem? only.sparse_index e ≡ some slot
    → get_elem? only.dense_entities slot ≡ some e
only-to_dense zero slot h = ground arith
only-to_dense (suc e) slot h = absurd (ground arith)

only-to_sparse :
    (slot e : ℕ)
    → get_elem? only.dense_entities slot ≡ some e
    → get_elem? only.sparse_index e ≡ some slot
only-to_sparse zero e h = ground arith
only-to_sparse (suc slot) e h = absurd (ground arith)

only-Inv : RackInv.Inv list_vault only
only-Inv = record {
  paired = refl;
  few = omega arith;
  to_dense = λ e slot h ne. only-to_dense e slot h;
  to_sparse = only-to_sparse;
}

world-AllInv : AllInv list_vault world.racks
world-AllInv zero r e = subst (RackInv.Inv list_vault) (some-injective only r e) only-Inv
world-AllInv (suc kind) r e = absurd (ground arith)

world-flags : (e flag : ℕ) → get_elem? world.alive_flags e ≡ some flag → (e ≡ 0) × (flag ≡ 1)
world-flags zero flag h = ground arith
world-flags (suc e) flag h = absurd (ground arith)

world-unborn : (e : ℕ) → 1 ≤ e → get_elem? world.alive_flags e ≡ none
world-unborn zero h = absurd (omega arith)
world-unborn (suc e) h = refl

world-dead_empty :
    (kind e : ℕ)
    → Inv.live list_vault world e ≡ false
    → component list_vault world.racks kind e ≡ none
world-dead_empty zero zero l = absurd (ground arith)
world-dead_empty zero (suc e) l = refl
world-dead_empty (suc kind) e l = refl

world-total : 1 ≡ total list_vault flag_weight world.alive_flags 1
unfolding total
world-total = refl

world-Inv : Inv.Inv list_vault world
world-Inv = record {
  sizes = refl;
  next_in = omega arith;
  bound = omega arith;
  flags = λ e flag h. omega (arith, world-flags e flag h);
  unborn = λ e h. ground (arith, world-unborn e h);
  recycled_dead = λ k e h. absurd (ground arith);
  recycled_born = λ k e h. absurd (ground arith);
  recycled_once = λ j k e h h'. absurd (ground arith);
  dead_recycled = world-born;
  count = world-total;
  racks_ok = world-AllInv;
  dead_empty = world-dead_empty;
}
  where
    world-born :
        (e : ℕ)
        → e < 1
        → Inv.live list_vault world e ≡ false
        → (k : ℕ) × (get_elem? {A = ℕ} [] k ≡ some e)
    world-born zero h l = absurd (ground arith)
    world-born (suc e) h l = absurd (omega arith)

-- A number comes back without the component of its last owner.
recycled_entity :
    (Registry.destroy_entity list_vault world 0 >>= λ g. Registry.create_entity list_vault g)
    ≡ some (
      record {
        racks =
            record { dense_entities = []; dense_values = []; sparse_index = invalid_slot ∷ [] }
            ∷ [];
        recycled = [];
        generation = 2 ∷ [];
        alive_flags = 1 ∷ [];
        next_entity = 1;
        live_count = 1;
      },
      0,
    )
unfolding destroy_entity retire erase_all create_entity Rack.erase_entity Rack.drop_last
recycled_entity = refl

create_entity-Created_example : Created list_vault world (create_entity list_vault world)
create_entity-Created_example = create_entity-Created list_vault world-Inv (λ _. omega arith)

destroy_entity-Destroyed_example : Destroyed list_vault world 0 (destroy_entity list_vault world 0)
destroy_entity-Destroyed_example = destroy_entity-Destroyed list_vault 0 world-Inv

add-Updated_example : Updated list_vault world 0 0 (some 8) (Registry.add list_vault world 0 0 8)
add-Updated_example = add-Updated list_vault 0 0 8 world-Inv refl refl (omega arith)

remove-Updated_example : Updated list_vault world 0 0 none (Registry.remove list_vault world 0 0)
remove-Updated_example = remove-Updated list_vault 0 0 world-Inv refl
