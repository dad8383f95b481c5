-- ===== src/Event/CommandStream/RoundTrip.antt =====
-- What is pushed is read back, in the order of the pushes.
use hyprie.Base.{
  ℕ, zero, suc, ◌+◌, ◌-◌, ◌%◌, ◌≡◌, ◌<◌, ◌≤◌, ◌⊎◌, inl, inr, true, false, none, some, List, [], ◌∷◌,
  length, get_elem?, refl, arith, ◌∙◌, Bool-cases, u32, ltb, snoc,
}
use hyprie.Event.CommandStream.{
  Memory, memcpy, header_bytes, load_u16, load_u32, CmdStream, align, aligned_size, push, Reader,
  Read, next, read_at, begin,
}
use hyprie.Event.CommandStream.Memory.{memcpy_before, memcpy_after, memcpy-get_elem?, load-header}

pub record Command : Type 0 where
  pub type : ℕ
  pub payload : List ℕ

-- A record of the command starts at the address, and ends `aligned_size` further.
pub record Record (m : Memory) (from to : ℕ) (c : Command) : Type 0 where
  pub typed : load_u16 m from ≡ c.type
  pub small : c.type < 256
  pub sized : load_u32 m (from + 4) ≡ to - from
  pub room : from + 8 + length c.payload ≤ to
  pub bytes : (i b : ℕ) → get_elem? c.payload i ≡ some b → m (from + 8 + i) ≡ b

-- The records of the commands fill the bytes between the two addresses.
pub data Holds (m : Memory) : ℕ → ℕ → List Command → Type 0 where
  holds_none : (p : ℕ) → Holds m p p []
  holds_more :
      {p q r : ℕ} {c : Command} {cs : List Command}
      → Record m p q c
      → Holds m q r cs
      → Holds m p r (c ∷ cs)

get_elem?-lt : (xs : List ℕ) (i b : ℕ) → get_elem? xs i ≡ some b → i < length xs
get_elem?-lt [] i b e = absurd (ground arith)
get_elem?-lt (x ∷ xs) zero b e = omega arith
get_elem?-lt (x ∷ xs) (suc i) b e = omega (arith, get_elem?-lt xs i b e)

Record-kept :
    {m m' : Memory} {from to : ℕ} {c : Command}
    → ((a : ℕ) → a < to → m' a ≡ m a)
    → Record m from to c
    → Record m' from to c
Record-kept {m} {m'} {from} {to} {c} same r = record {
  typed = omega (
    arith,
    r.typed,
    r.room,
    same from (omega (arith, r.room)),
    same (from + 1) (omega (arith, r.room)),
  );
  small = r.small;
  sized = omega (
    arith,
    r.sized,
    same (from + 4) (omega (arith, r.room)),
    same (from + 4 + 1) (omega (arith, r.room)),
    same (from + 4 + 2) (omega (arith, r.room)),
    same (from + 4 + 3) (omega (arith, r.room)),
  );
  room = r.room;
  bytes = λ i b e.
      same (from + 8 + i) (ground (arith, r.room, get_elem?-lt c.payload i b e)) ∙ r.bytes i b e;
}

Holds-le : {m : Memory} {p q : ℕ} {cs : List Command} → Holds m p q cs → p ≤ q
Holds-le (holds_none p) = omega arith
Holds-le (holds_more r h) = omega (arith, r.room, Holds-le h)

Holds-snoc :
    {m m' : Memory} {p q to : ℕ} {c : Command} {cs : List Command}
    → ((a : ℕ) → a < q → m' a ≡ m a)
    → Holds m p q cs
    → Record m' q to c
    → Holds m' p to (snoc cs c)
Holds-snoc same (holds_none p) r = holds_more r (holds_none _)
Holds-snoc same (holds_more r' h) r =
    holds_more (Record-kept (λ a lt. same a (omega (arith, Holds-le h))) r') (Holds-snoc same h r)

-- The stream holds the commands.
pub record Contains (s : CmdStream) (cs : List Command) : Type 0 where
  pub memory : Memory
  pub bytes : s.data_bytes ≡ some memory
  pub holds : Holds memory 0 s.size cs
  pub even : s.size % 8 ≡ 0
  pub fits : s.size ≤ s.capacity

align-eq :
    (n : ℕ)
    → n + 15 < 4294967296
    → (align (u32 (8 + n)) % 8 ≡ 0) × (8 + n ≤ align (u32 (8 + n))) × (align (u32 (8 + n)) ≤ n + 15)
unfolding align
align-eq n h = (omega arith, omega arith, omega arith)

pub push_fits :
    {s : CmdStream} {cs : List Command} (type : ℕ) (payload : List ℕ)
    → (v : Contains s cs) → type < 256
    → s.capacity + length payload + 15 < 4294967296
    → s.size + aligned_size payload ≤ s.capacity
    → (s' : CmdStream) × (push s type payload ≡ (s', true))
      × (v' : Contains s' (snoc cs (record { type = type; payload = payload }))) × ((a : ℕ)
          → s.capacity ≤ a
          → v'.memory a ≡ v.memory a)
unfolding push
push_fits {s} {cs} type payload v ht room fits =
    let size = aligned_size payload in
    let al = align-eq (length payload) (omega arith) in
    let m' = memcpy v.memory s.size (header_bytes type size) in
    let head = load-header v.memory s.size type size (omega arith) (omega (arith, al)) in
    let kept : (a : ℕ) → a < s.size + 8 → memcpy m' (s.size + 8) payload a ≡ m' a =
      λ a h. memcpy_before payload m' (s.size + 8) a h in
    (
      record s { data_bytes = some (memcpy m' (s.size + 8) payload); size = s.size + size },
      ground (arith, v.bytes),
      record {
        memory = memcpy m' (s.size + 8) payload;
        bytes = refl;
        holds =
            Holds-snoc
              (λ a h.
                kept a (omega arith) ∙ memcpy_before (header_bytes type size) v.memory s.size a h)
              v.holds
              (record {
                typed =
                    omega
                      (arith, head.0, kept s.size (omega arith), kept (s.size + 1) (omega arith));
                small = ht;
                sized = omega (
                  arith,
                  head.1,
                  kept (s.size + 4) (omega arith),
                  kept (s.size + 4 + 1) (omega arith),
                  kept (s.size + 4 + 2) (omega arith),
                  kept (s.size + 4 + 3) (omega arith),
                );
                room = omega (arith, al);
                bytes = λ i b e. memcpy-get_elem? payload m' (s.size + 8) i _ b refl e;
              });
        even = omega (arith, al, v.even);
        fits = fits;
      },
      λ a h.
          memcpy_after payload m' (s.size + 8) a (omega (arith, al))
          ∙ memcpy_after (header_bytes type size) v.memory s.size a (omega (arith, al)),
    )

-- For a type of one byte, in a stream whose capacity and the payload stay clear of 2^32: `push`
-- returns false and changes nothing if the record does not fit in the capacity; else it returns
-- true, the stream holds the command behind those it held, and no byte from the capacity on is
-- written.
pub push-Contains :
    {s : CmdStream} {cs : List Command} (type : ℕ) (payload : List ℕ)
    → (v : Contains s cs) → type < 256
    → s.capacity + length payload + 15 < 4294967296
    → ((s.capacity < s.size + aligned_size payload) × (push s type payload ≡ (s, false)))
      ⊎ ((s.size + aligned_size payload ≤ s.capacity)
          × (s' : CmdStream) × (push s type payload ≡ (s', true))
          × (v' : Contains s' (snoc cs (record { type = type; payload = payload }))) × ((a : ℕ)
              → s.capacity ≤ a
              → v'.memory a ≡ v.memory a))
unfolding push
push-Contains {s} type payload v ht room =
    let al = align-eq (length payload) (omega arith) in
    elim (Bool-cases (ltb s.capacity (s.size + aligned_size payload))) [
      | inl full ↦ inl (ground arith, ground (arith, v.bytes, v.fits, al))
      | inr free ↦
          let p = push_fits type payload v ht room (ground arith) in
          inr (ground arith, p.0, p.1, p.2, p.3)
    ]

-- A call of `next` has returned the command.
pub record Matches (m : Memory) (rd : Read) (c : Command) : Type 0 where
  pub typed : rd.type ≡ c.type
  pub long : length c.payload ≤ rd.payload_size
  pub bytes : (i b : ℕ) → get_elem? c.payload i ≡ some b → m (rd.payload + i) ≡ b

-- The calls of `next` return the commands one by one, and then false.
pub data Yields (m : Memory) : Reader → List Command → Type 0 where
  yields_none : {r : Reader} → next r ≡ some none → Yields m r []
  yields_more :
      {r r' : Reader} {rd : Read} {c : Command} {cs : List Command}
      → next r ≡ some (some (r', rd))
      → Matches m rd c
      → Yields m r' cs
      → Yields m r (c ∷ cs)

next-Record :
    {m : Memory} {from to limit : ℕ} {c : Command}
    → Record m from to c
    → to ≤ limit
    → (rd : Read) × (next (record { bytes = some m; cursor = from; limit = limit })
        ≡ some (some (record { bytes = some m; cursor = to; limit = limit }, rd)))
      × Matches m rd c
unfolding next read_at
next-Record {m} {from} {to} {limit} r h =
    let reach : from + load_u32 m (from + 4) ≡ to = omega (arith, r.sized, r.room) in
    (
      record {
        type = load_u16 m from % 256;
        payload = from + 8;
        payload_size = load_u32 m (from + 4) - 8;
      },
      ground (arith, reach, r.sized, r.room),
      record {
        typed = omega (arith, r.typed, r.small);
        long = omega (arith, r.sized, r.room);
        bytes = r.bytes;
      },
    )

Holds-Yields :
    {m : Memory} {from to : ℕ} {cs : List Command}
    → Holds m from to cs
    → Yields m (record { bytes = some m; cursor = from; limit = to }) cs
unfolding next
Holds-Yields (holds_none p) = yields_none (ground arith)
Holds-Yields (holds_more r h) =
    let (rd, e, k) = next-Record r (Holds-le h) in yields_more e k (Holds-Yields h)

-- The reader of a stream passes its assertions, and returns exactly the commands that the stream
-- holds, in the order of the pushes, with their types and all bytes of their payloads.
pub begin-Yields :
    {s : CmdStream} {cs : List Command} (v : Contains s cs)
    → (r : Reader) × (begin s ≡ some r) × Yields v.memory r cs
unfolding begin
begin-Yields {s} v = (_, ground (arith, v.bytes, v.even), Holds-Yields v.holds)
