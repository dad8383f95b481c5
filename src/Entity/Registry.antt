-- ===== src/Entity/Registry.antt =====
-- `Registry` of hpr/entity/ecs_registry.hpp: entity numbers with recycling, over one rack for each
-- component type. The type parameters `Components...` are the positions of the list of racks, and
-- the values of all component types are elements of one type.
pub mod Racks
pub mod Inv
pub mod Create
pub mod Destroy
pub mod Components
use hyprie.Base.{
  ℕ, zero, suc, ◌+◌, ◌-◌, Bool, true, false, not, Option, none, some, List, [], ◌∷◌, ltb, leb, ◌==◌,
  if◌then◌else◌, ◌>>=◌, ◌>>◌, u32, u64, get_elem?, set, Vault, write,
}
use hyprie.Entity.Rack
use hyprie.Entity.Rack.{Rack}

abbrev pub invalid_entity : ℕ
invalid_entity = 0xFFFFFFFF

module _ (𝓥 : Vault) (T : Type 0) where
  open 𝓥 use {Vec}

  pub record Registry : Type 0 where
    pub racks : List (Rack 𝓥 T)
    pub recycled : Vec ℕ
    pub generation : Vec ℕ
    pub alive_flags : Vec ℕ
    pub next_entity : ℕ
    pub live_count : ℕ

module _ (𝓥 : Vault) {T : Type 0} where
  open 𝓥 use {Vec, size, at, empty, push_back, pop_back, store, resize, truncate}

  -- The three instances of `for_each_rack`.
  unfoldable pub ensure_all : List (Rack 𝓥 T) → ℕ → List (Rack 𝓥 T)
  ensure_all [] capacity = []
  ensure_all (r ∷ rs) capacity = Rack.ensure_sparse_capacity 𝓥 r capacity ∷ ensure_all rs capacity

  unfoldable pub erase_all : List (Rack 𝓥 T) → ℕ → Option (List (Rack 𝓥 T))
  erase_all [] entity = some []
  erase_all (r ∷ rs) entity = do
    r' ← Rack.erase_entity 𝓥 r entity
    rs' ← erase_all rs entity
    some (r' ∷ rs')

  unfoldable pub clear_all : List (Rack 𝓥 T) → List (Rack 𝓥 T)
  clear_all [] = []
  clear_all (r ∷ rs) = Rack.clear 𝓥 r ∷ clear_all rs

  -- The part of `create_entity` behind the test for recycled numbers.
  unfoldable pub create_next : Registry 𝓥 T → Option (Registry 𝓥 T × ℕ)
  create_next g =
      if leb (size g.generation) g.next_entity
      then some (
        record g {
          generation = resize g.generation (g.next_entity + 1) 1;
          alive_flags = resize g.alive_flags (g.next_entity + 1) 1;
          racks = ensure_all g.racks (g.next_entity + 1);
          next_entity = u32 (g.next_entity + 1);
          live_count = u64 (g.live_count + 1);
        },
        g.next_entity,
      )
      else (do
        flags ← write 𝓥 g.alive_flags g.next_entity 1
        some (
          record g {
            alive_flags = flags;
            next_entity = u32 (g.next_entity + 1);
            live_count = u64 (g.live_count + 1);
          },
          g.next_entity,
        ))

  unfoldable pub create_entity : Registry 𝓥 T → Option (Registry 𝓥 T × ℕ)
  create_entity g =
      if ltb 0 (size g.recycled)
      then (do
        index ← at g.recycled (size g.recycled - 1)
        flags ← write 𝓥 g.alive_flags index 1
        some (
          record g {
            recycled = pop_back g.recycled;
            alive_flags = flags;
            live_count = u64 (g.live_count + 1);
          },
          index,
        ))
      else create_next g

  -- The part of `destroy_entity` behind its two early returns.
  unfoldable pub retire : Registry 𝓥 T → ℕ → Option (Registry 𝓥 T)
  retire g entity = do
    racks ← erase_all g.racks entity
    flags ← write 𝓥 g.alive_flags entity 0
    age ← at g.generation entity
    ages ← write 𝓥 g.generation entity (u32 (age + 1))
    some (record g {
      racks = racks;
      alive_flags = flags;
      generation = ages;
      recycled = push_back g.recycled entity;
      live_count = if ltb 0 g.live_count then g.live_count - 1 else g.live_count;
    })

  unfoldable pub destroy_entity : Registry 𝓥 T → ℕ → Option (Registry 𝓥 T)
  destroy_entity g entity =
      if leb (size g.generation) entity
      then some g
      else (at g.alive_flags entity >>= λ flag. if flag == 0 then some g else retire g entity)

  unfoldable pub alive : Registry 𝓥 T → ℕ → Option Bool
  alive g entity =
      if leb (size g.generation) entity
      then some false
      else (at g.alive_flags entity >>= λ flag. some (not (flag == 0)))

  unfoldable pub reserve_entities : Registry 𝓥 T → ℕ → Registry 𝓥 T
  reserve_entities g capacity =
      if ltb (size g.generation) capacity
      then record g {
        generation = resize g.generation capacity 1;
        alive_flags = resize g.alive_flags capacity 0;
        racks = ensure_all g.racks capacity;
      }
      else g

  unfoldable pub clear : Registry 𝓥 T → Registry 𝓥 T
  clear g = record {
    racks = clear_all g.racks;
    recycled = truncate g.recycled 0;
    generation = truncate g.generation 0;
    alive_flags = truncate g.alive_flags 0;
    next_entity = 0;
    live_count = 0;
  }

  unfoldable pub entity_count : Registry 𝓥 T → ℕ
  entity_count g = g.live_count

  -- The methods of one component type, the rack at position `kind`.
  unfoldable pub add : Registry 𝓥 T → ℕ → ℕ → T → Option (Registry 𝓥 T)
  add g kind entity value = do
    r ← get_elem? g.racks kind
    r' ← Rack.add 𝓥 r entity value
    some (record g { racks = set g.racks kind r' })

  unfoldable pub remove : Registry 𝓥 T → ℕ → ℕ → Option (Registry 𝓥 T)
  remove g kind entity = do
    r ← get_elem? g.racks kind
    r' ← Rack.erase_entity 𝓥 r entity
    some (record g { racks = set g.racks kind r' })

  unfoldable pub get : Registry 𝓥 T → ℕ → ℕ → Option (Option T)
  get g kind entity = do r ← get_elem? g.racks kind; Rack.get 𝓥 r entity

  unfoldable pub has : Registry 𝓥 T → ℕ → ℕ → Option Bool
  has g kind entity = do r ← get_elem? g.racks kind; Rack.has 𝓥 r entity
