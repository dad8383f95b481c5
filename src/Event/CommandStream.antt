-- ===== src/Event/CommandStream.antt =====
-- hpr/event/command_stream.hpp: commands packed into a block of bytes, and the reader of the block.
pub mod Memory
pub mod RoundTrip
use hyprie.Base.{
  ℕ, zero, suc, ◌+◌, ◌-◌, ◌*◌, ◌/◌, ◌%◌, Bool, true, false, Option, none, some, List, [], ◌∷◌,
  length, ltb, leb, ◌==◌, if◌then◌else◌, ◌>>=◌, ◌>>◌, guard, u32,
}

-- The bytes behind a pointer.
abbrev pub Memory : Type 0
Memory = ℕ → ℕ

abbrev pub store_byte : Memory → ℕ → ℕ → Memory
store_byte m p b a = if a == p then b else m a

-- `std::memcpy` to the address `p`.
unfoldable pub memcpy : Memory → ℕ → List ℕ → Memory
memcpy m p [] = m
memcpy m p (b ∷ bs) = memcpy (store_byte m p b) (p + 1) bs

-- The bytes of a `CmdHeader` on a little-endian machine.
abbrev pub header_bytes : ℕ → ℕ → List ℕ
header_bytes type size =
    type % 256
    ∷ type / 256 % 256
    ∷ 0
    ∷ 0
    ∷ size % 256
    ∷ size / 256 % 256
    ∷ size / 65536 % 256
    ∷ size / 16777216 % 256
    ∷ []

abbrev pub load_u16 : Memory → ℕ → ℕ
load_u16 m p = m p + 256 * m (p + 1)

abbrev pub load_u32 : Memory → ℕ → ℕ
load_u32 m p = m p + 256 * m (p + 1) + 65536 * m (p + 2) + 16777216 * m (p + 3)

-- `data` is `none` for `nullptr`; offsets into it stand for pointers.
pub record CmdStream : Type 0 where
  pub data_bytes : Option Memory
  pub capacity : ℕ
  pub size : ℕ

abbrev pub set_storage : Memory → ℕ → CmdStream
set_storage storage capacity_in = record {
  data_bytes = some storage;
  capacity = capacity_in;
  size = 0;
}

abbrev pub reset : CmdStream → CmdStream
reset s = record s { size = 0 }

-- `(total_size + 7U) & ~7U`
unfoldable pub align : ℕ → ℕ
align total_size = u32 (total_size + 7) - u32 (total_size + 7) % 8

abbrev pub aligned_size : List ℕ → ℕ
aligned_size payload = align (u32 (8 + length payload))

-- The payload is the sequence of its bytes. A sum of `uint32_t` wraps.
unfoldable pub push : CmdStream → ℕ → List ℕ → CmdStream × Bool
push s type payload = elim s.data_bytes [
  | none ↦ (s, false)
  | some m ↦ if ltb s.capacity (u32 (s.size + aligned_size payload)) then (s, false) else (
    record s {
      data_bytes = some (
          memcpy (memcpy m s.size (header_bytes type (aligned_size payload))) (s.size + 8) payload);
      size = u32 (s.size + aligned_size payload);
    },
    true,
  )
]

pub record Reader : Type 0 where
  pub bytes : Option Memory
  pub cursor : ℕ
  pub limit : ℕ

-- `Reader::begin`, with its assertion.
unfoldable pub begin : CmdStream → Option Reader
begin s = do
  guard (s.size % 8 == 0)
  some (record { bytes = s.data_bytes; cursor = 0; limit = s.size })

-- What `next` writes to its three arguments.
pub record Read : Type 0 where
  pub type : ℕ
  pub payload : ℕ
  pub payload_size : ℕ

-- The part of `next` behind its first test.
unfoldable pub read_at : Memory → Reader → Option (Option (Reader × Read))
read_at m r = do
  guard (leb 8 (load_u32 m (r.cursor + 4)))
  guard (leb (r.cursor + load_u32 m (r.cursor + 4)) r.limit)
  some (
      some (
        record r { cursor = r.cursor + load_u32 m (r.cursor + 4) },
        record {
          type = load_u16 m r.cursor % 256;
          payload = r.cursor + 8;
          payload_size = load_u32 m (r.cursor + 4) - 8;
        },
      ))

-- `none` is a failed assertion, `some none` the result false.
unfoldable pub next : Reader → Option (Option (Reader × Read))
next r = elim r.bytes [
  | none ↦ some none
  | some m ↦ if leb r.limit r.cursor then some none else read_at m r
]
