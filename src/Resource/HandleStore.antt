-- ===== src/Resource/HandleStore.antt =====
-- hpr/resource/handle.hpp and hpr/resource/handle_store.hpp: slots with a generation counter, and
-- the handles that name them.
pub mod Inv
pub mod Teardown
pub mod Create
pub mod Destroy
pub mod View
pub mod Stale
use hyprie.Base.{
  ℕ, zero, suc, ◌+◌, ◌-◌, Bool, true, false, not, ◌&&◌, Option, none, some, ltb, leb, ◌==◌,
  if◌then◌else◌, ◌>>=◌, ◌>>◌, guard, u32, invalid_u32, Vault,
}

pub record Handle : Type 0 where
  pub index : ℕ
  pub magic : ℕ

-- The default constructor and `Handle::null`.
abbrev pub null : Handle
null = record { index = invalid_u32; magic = 0 }

unfoldable pub is_valid : Handle → Bool
is_valid h = not (h.index == invalid_u32)

-- `storage` is `none` while no object lives in the bytes of the slot.
pub record Slot (A : Type 0) : Type 0 where
  pub storage : Option A
  pub magic : ℕ
  pub active : Bool

-- What a call of `get` hands out: `nullptr`, a pointer to an object, or one to dead bytes.
pub data Pointer (A : Type 0) : Type 0 where
  nullptr : Pointer A
  object : A → Pointer A
  dangling : Pointer A

module _ {A : Type 0} where
  abbrev pub fresh_slot : Slot A
  fresh_slot = record { storage = none; magic = 0; active = false }

  -- `Slot::construct`, with its assertion.
  unfoldable pub construct : Slot A → A → Option (Slot A)
  construct s a = do
    guard (not s.active)
    some (record { storage = some a; magic = u32 (s.magic + 1); active = true })

  -- `Slot::destruct`.
  unfoldable pub destruct : Slot A → Slot A
  destruct s =
      if s.active then record { storage = none; magic = u32 (s.magic + 1); active = false } else s

  -- `&slot.value()`.
  unfoldable pub value : Slot A → Pointer A
  value s = elim s.storage [ none ↦ dangling | some a ↦ object a ]

module _ (𝓥 : Vault) (A : Type 0) where
  open 𝓥 use {Vec}

  pub record HandleStore : Type 0 where
    pub slots : Vec (Slot A)
    pub freed : Vec ℕ
    pub active_count : ℕ

module _ (𝓥 : Vault) {A : Type 0} where
  open 𝓥 use {Vec, size, at, empty, push_back, pop_back, store}

  -- A store before its first `create`.
  abbrev pub init : HandleStore 𝓥 A
  init = record { slots = empty; freed = empty; active_count = 0 }

  -- The part of `create` behind the choice of the index.
  unfoldable pub create_at : HandleStore 𝓥 A → ℕ → A → Option (HandleStore 𝓥 A × Handle)
  create_at s index a = do
    slot ← at s.slots index
    slot' ← construct slot a
    some (
      record s { slots = store s.slots index slot'; active_count = u32 (s.active_count + 1) },
      record { index = index; magic = slot'.magic },
    )

  unfoldable pub create : HandleStore 𝓥 A → A → Option (HandleStore 𝓥 A × Handle)
  create s a =
      if ltb 0 (size s.freed)
      then (do
        index ← at s.freed (size s.freed - 1)
        create_at (record s { freed = pop_back s.freed }) index a)
      else create_at (record s { slots = push_back s.slots fresh_slot }) (u32 (size s.slots)) a

  -- The three early returns leave the store as it is. An unsigned `--` at 0 wraps.
  unfoldable pub destroy : HandleStore 𝓥 A → Handle → Option (HandleStore 𝓥 A)
  destroy s h = if leb (size s.slots) h.index then some s else (do
    slot ← at s.slots h.index
    if not slot.active
        then some s
        else if not (slot.magic == h.magic)
        then some s
        else some (record {
          slots = store s.slots h.index (destruct slot);
          freed = push_back s.freed h.index;
          active_count = u32 (s.active_count + 4294967295);
        }))

  -- Both overloads of `get`.
  unfoldable pub get : HandleStore 𝓥 A → Handle → Option (Pointer A)
  get s h = if leb (size s.slots) h.index then some nullptr else (do
    slot ← at s.slots h.index
    if not slot.active
        then some nullptr
        else if not (slot.magic == h.magic)
        then some nullptr
        else some (value slot))

  -- Both overloads of `operator[]`, which dereference what `get` returns: `none` is a fault.
  unfoldable pub deref : HandleStore 𝓥 A → Handle → Option A
  deref s h = do p ← get s h; elim p [ object a ↦ some a | _ ↦ none ]

  -- `size()`.
  unfoldable pub live_count : HandleStore 𝓥 A → ℕ
  live_count s = s.active_count

  -- `capacity()`.
  unfoldable pub capacity : HandleStore 𝓥 A → ℕ
  capacity s = u32 (size s.slots)

  -- The loop of the destructor, `n` slots from index `i` on.
  unfoldable pub destruct_from : Vec (Slot A) → ℕ → ℕ → Option (Vec (Slot A))
  destruct_from v i zero = some v
  destruct_from v i (suc n) = do slot ← at v i; destruct_from (store v i (destruct slot)) (i + 1) n

  -- `~HandleStore`.
  unfoldable pub destruct_all : HandleStore 𝓥 A → Option (HandleStore 𝓥 A)
  destruct_all s = do
    slots' ← destruct_from s.slots 0 (size s.slots)
    some (record s { slots = slots' })

  -- The move constructor: the new store, and what is left of `other`. `left_slots` and `left_freed`
  -- are what the library's move leaves behind in the two containers.
  unfoldable pub move_construct :
      Vec (Slot A) → Vec ℕ → HandleStore 𝓥 A → HandleStore 𝓥 A × HandleStore 𝓥 A
  move_construct left_slots left_freed other = (
    record { slots = other.slots; freed = other.freed; active_count = other.active_count },
    record { slots = left_slots; freed = left_freed; active_count = 0 },
  )

  -- The move assignment, to another object (`this != &other`): the old slots are destructed first.
  unfoldable pub move_assign :
      Vec (Slot A)
      → Vec ℕ
      → HandleStore 𝓥 A
      → HandleStore 𝓥 A
      → Option (HandleStore 𝓥 A × HandleStore 𝓥 A)
  move_assign left_slots left_freed self other = do
    _ ← destruct_from self.slots 0 (size self.slots)
    some (move_construct left_slots left_freed other)
