-- ===== src/Event/CommandStream/Memory.antt =====
-- Bytes that a copy writes, and bytes that it leaves.
use hyprie.Base.{
  ℕ, zero, suc, ◌+◌, ◌≡◌, ◌<◌, ◌≤◌, some, List, [], ◌∷◌, length, get_elem?, refl, arith, ◌∙◌,
}
use hyprie.Event.CommandStream.{Memory, store_byte, memcpy, header_bytes, load_u16, load_u32}

pub memcpy_before : (bs : List ℕ) (m : Memory) (p a : ℕ) → a < p → memcpy m p bs a ≡ m a
unfolding memcpy
memcpy_before [] m p a h = refl
memcpy_before (b ∷ bs) m p a h =
    memcpy_before bs (store_byte m p b) (p + 1) a (omega arith) ∙ ground arith

-- The byte at the address `q`.
pub memcpy-get_elem? :
    (bs : List ℕ) (m : Memory) (p i q b : ℕ)
    → q ≡ p + i
    → get_elem? bs i ≡ some b
    → memcpy m p bs q ≡ b
unfolding memcpy
memcpy-get_elem? [] m p i q b h e = absurd (ground arith)
memcpy-get_elem? (c ∷ bs) m p zero q b h e =
    memcpy_before bs (store_byte m p c) (p + 1) q (omega arith) ∙ ground arith
memcpy-get_elem? (c ∷ bs) m p (suc i) q b h e =
    memcpy-get_elem? bs (store_byte m p c) (p + 1) i q b (omega arith) e

-- A header is read back.
pub load-header :
    (m : Memory) (p type size : ℕ)
    → type < 65536
    → size < 4294967296
    → (load_u16 (memcpy m p (header_bytes type size)) p ≡ type)
      × (load_u32 (memcpy m p (header_bytes type size)) (p + 4) ≡ size)
load-header m p type size ht hs =
    let byte : (i q b : ℕ)
        → q ≡ p + i
        → get_elem? (header_bytes type size) i ≡ some b
        → memcpy m p (header_bytes type size) q ≡ b =
      λ i q b h e. memcpy-get_elem? (header_bytes type size) m p i q b h e in
    (
      omega (arith, byte 0 p _ (omega arith) refl, byte 1 (p + 1) _ refl refl),
      omega (
        arith,
        byte 4 (p + 4) _ refl refl,
        byte 5 (p + 4 + 1) _ (omega arith) refl,
        byte 6 (p + 4 + 2) _ (omega arith) refl,
        byte 7 (p + 4 + 3) _ (omega arith) refl,
      ),
    )

pub memcpy_after : (bs : List ℕ) (m : Memory) (p a : ℕ) → p + length bs ≤ a → memcpy m p bs a ≡ m a
unfolding memcpy
memcpy_after [] m p a h = refl
memcpy_after (b ∷ bs) m p a h =
    memcpy_after bs (store_byte m p b) (p + 1) a (omega arith) ∙ ground arith
