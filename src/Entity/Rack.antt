-- ===== src/Entity/Rack.antt =====
-- The storage of one component type, `Rack` of hpr/entity/ecs_registry.hpp: a sparse set. The
-- methods of `Registry` that only forward to one rack are modelled here too.
pub mod Inv
pub mod Add
pub mod Erase
pub mod Each
use hyprie.Base.{
  ℕ, zero, suc, ◌+◌, Bool, true, false, not, Option, none, some, ltb, leb, ◌==◌, if◌then◌else◌,
  ◌>>=◌, ◌>>◌, u32, invalid_u32, Vault, write,
}

abbrev pub invalid_slot : ℕ
invalid_slot = invalid_u32

module _ (𝓥 : Vault) (T : Type 0) where
  open 𝓥 use {Vec}

  pub record Rack : Type 0 where
    pub dense_entities : Vec ℕ
    pub dense_values : Vec T
    pub sparse_index : Vec ℕ

module _ (𝓥 : Vault) {T : Type 0} where
  open 𝓥 use {Vec, size, at, empty, push_back, store, resize, truncate}

  abbrev pub init : Rack 𝓥 T
  init = record { dense_entities = empty; dense_values = empty; sparse_index = empty }

  unfoldable pub ensure_sparse_capacity : Rack 𝓥 T → ℕ → Rack 𝓥 T
  ensure_sparse_capacity r capacity =
      if ltb (size r.sparse_index) capacity
      then record r { sparse_index = resize r.sparse_index capacity invalid_slot }
      else r

  -- The last element moves into the freed slot.
  unfoldable pub move_last : Rack 𝓥 T → ℕ → ℕ → Option (Rack 𝓥 T)
  move_last r slot last = do
    value ← at r.dense_values last
    values ← write 𝓥 r.dense_values slot value
    moved ← at r.dense_entities last
    entities ← write 𝓥 r.dense_entities slot moved
    owner ← at entities slot
    sparse ← write 𝓥 r.sparse_index owner slot
    some (record { dense_entities = entities; dense_values = values; sparse_index = sparse })

  unfoldable pub drop_last : Rack 𝓥 T → ℕ → ℕ → Option (Rack 𝓥 T)
  drop_last r entity last = do
    sparse ← write 𝓥 r.sparse_index entity invalid_slot
    some (record {
      dense_entities = truncate r.dense_entities last;
      dense_values = truncate r.dense_values last;
      sparse_index = sparse;
    })

  -- `size() - 1U` is cut to 32 bits: 0xFFFFFFFF at size 0.
  abbrev pub last_slot : Rack 𝓥 T → ℕ
  last_slot r = u32 (size r.dense_values + 4294967295)

  -- `Rack::erase_entity`; the body of `Registry::remove` is the same.
  unfoldable pub erase_entity : Rack 𝓥 T → ℕ → Option (Rack 𝓥 T)
  erase_entity r entity = if leb (size r.sparse_index) entity then some r else (do
    slot ← at r.sparse_index entity
    if slot == invalid_slot
        then some r
        else if slot == last_slot r
        then drop_last r entity (last_slot r)
        else (move_last r slot (last_slot r) >>= λ r'. drop_last r' entity (last_slot r)))

  unfoldable pub clear : Rack 𝓥 T → Rack 𝓥 T
  clear r = record {
    dense_entities = truncate r.dense_entities 0;
    dense_values = truncate r.dense_values 0;
    sparse_index = resize r.sparse_index 0 invalid_slot;
  }

  unfoldable pub has : Rack 𝓥 T → ℕ → Option Bool
  has r entity =
      if leb (size r.sparse_index) entity
      then some false
      else (at r.sparse_index entity >>= λ slot. some (not (slot == invalid_slot)))

  -- The write behind the resize of `Registry::add`.
  unfoldable pub add_at : Rack 𝓥 T → ℕ → T → Option (Rack 𝓥 T)
  add_at r entity value = do
    slot ← at r.sparse_index entity
    if slot == invalid_slot
        then (do
          sparse ← write 𝓥 r.sparse_index entity (u32 (size r.dense_values))
          some (record {
            dense_entities = push_back r.dense_entities entity;
            dense_values = push_back r.dense_values value;
            sparse_index = sparse;
          }))
        else (write 𝓥 r.dense_values slot value >>= λ values.
            some (record r { dense_values = values }))

  -- `Registry::add`, up to the reference that it returns.
  unfoldable pub add : Rack 𝓥 T → ℕ → T → Option (Rack 𝓥 T)
  add r entity value =
      add_at
        (if leb (size r.sparse_index) entity
          then record r { sparse_index = resize r.sparse_index (entity + 1) invalid_slot }
          else r)
        entity value

  -- Both overloads of `Registry::get`: the outer `none` is a fault, the inner one `nullptr`.
  unfoldable pub get : Rack 𝓥 T → ℕ → Option (Option T)
  get r entity = if leb (size r.sparse_index) entity then some none else (do
    slot ← at r.sparse_index entity
    if slot == invalid_slot
        then some none
        else (at r.dense_values slot >>= λ value. some (some value)))

  -- The loop of `Registry::each` over the `n` elements from `i` on. The callback gets the entity and
  -- a reference to the value, which is its position. It may change the rack in any way, as a callback
  -- that captures the registry does, and fault; it has a state of its own, where other racks can be.
  unfoldable pub each_from :
      {S : Type 0}
      → (ℕ → ℕ → Rack 𝓥 T → S → Option (Rack 𝓥 T × S))
      → Rack 𝓥 T
      → S
      → ℕ
      → ℕ
      → Option (Rack 𝓥 T × S)
  each_from func r s i zero = some (r, s)
  each_from func r s i (suc n) = do
    entity ← at r.dense_entities i
    _ ← at r.dense_values i
    p ← func entity i r s
    each_from func p.0 p.1 (i + 1) n

  unfoldable pub each :
      {S : Type 0}
      → (ℕ → ℕ → Rack 𝓥 T → S → Option (Rack 𝓥 T × S))
      → Rack 𝓥 T
      → S
      → Option (Rack 𝓥 T × S)
  each func r s = each_from func r s 0 (size r.dense_values)
