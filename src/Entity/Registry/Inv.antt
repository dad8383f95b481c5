-- ===== src/Entity/Registry/Inv.antt =====
-- The invariant of the registry.
use hyprie.Base.{
  ℕ, ◌≡◌, ◌<◌, ◌≤◌, Bool, false, not, Option, none, some, arith, ◌==◌, Vault, total, inl, inr,
  Option-cases, total-zero,
}
use hyprie.Entity.Registry.{Registry, invalid_entity, alive, clear}
use hyprie.Entity.Registry.Racks.{AllInv, component, clear_all-AllInv}

abbrev pub is_live : Option ℕ → Bool
is_live none = false
is_live (some flag) = not (flag == 0)

abbrev pub flag_weight : ℕ → ℕ
flag_weight flag = flag

module _ (𝓥 : Vault) {T : Type 0} where
  open 𝓥 use {size, at, at_in, at_out, size_truncate, at_truncate}

  -- The entities of a registry.
  abbrev pub live : Registry 𝓥 T → ℕ → Bool
  live g e = is_live (at g.alive_flags e)

  -- `m_recycled` lists every dead number below `m_next_entity` once, the counter counts the live
  -- entities, and a number that is not alive has no component.
  pub record Inv (g : Registry 𝓥 T) : Type 0 where
    pub sizes : size g.generation ≡ size g.alive_flags
    pub next_in : g.next_entity ≤ size g.alive_flags
    pub bound : size g.alive_flags ≤ invalid_entity
    pub flags : (e flag : ℕ) → at g.alive_flags e ≡ some flag → flag ≤ 1
    pub unborn : (e : ℕ) → g.next_entity ≤ e → live g e ≡ false
    pub recycled_dead : (k e : ℕ) → at g.recycled k ≡ some e → at g.alive_flags e ≡ some 0
    pub recycled_born : (k e : ℕ) → at g.recycled k ≡ some e → e < g.next_entity
    pub recycled_once : (j k e : ℕ) → at g.recycled j ≡ some e → at g.recycled k ≡ some e → j ≡ k
    pub dead_recycled :
        (e : ℕ) → e < g.next_entity → live g e ≡ false → (k : ℕ) × (at g.recycled k ≡ some e)
    pub count : g.live_count ≡ total 𝓥 flag_weight g.alive_flags (size g.alive_flags)
    pub racks_ok : AllInv 𝓥 g.racks
    pub dead_empty : (kind e : ℕ) → live g e ≡ false → component 𝓥 g.racks kind e ≡ none

  -- `alive` never faults, and tells whether the number is a live entity.
  pub alive-live : {g : Registry 𝓥 T} (e : ℕ) → Inv g → alive 𝓥 g e ≡ some (live g e)
  unfolding alive
  alive-live {g} e v = elim (Option-cases (at g.alive_flags e)) [
    | inl out ↦ ground (arith, at_in g.alive_flags e, v.sizes)
    | inr (flag, h) ↦ ground (arith, at_out g.alive_flags e, v.sizes)
  ]

  -- `clear` leaves a registry with no entities that satisfies the invariant.
  pub clear-Inv : (g : Registry 𝓥 T) → Inv (clear 𝓥 g) × ((e : ℕ) → live (clear 𝓥 g) e ≡ false)
  unfolding clear
  clear-Inv g =
      let racks = clear_all-AllInv 𝓥 g.racks in
      (
        record {
          sizes = ground (arith, size_truncate g.generation 0, size_truncate g.alive_flags 0);
          next_in = omega arith;
          bound = ground (arith, size_truncate g.alive_flags 0);
          flags = λ e flag h. absurd (ground (arith, at_truncate g.alive_flags 0 e));
          unborn = λ e h. ground (arith, at_truncate g.alive_flags 0 e);
          recycled_dead = λ k e h. absurd (ground (arith, at_truncate g.recycled 0 k));
          recycled_born = λ k e h. absurd (ground (arith, at_truncate g.recycled 0 k));
          recycled_once = λ j k e h h'. absurd (ground (arith, at_truncate g.recycled 0 k));
          dead_recycled = λ e h l. absurd (omega arith);
          count = rw (size_truncate g.alive_flags 0 (omega arith), total-zero);
          racks_ok = racks.0;
          dead_empty = λ kind e h. racks.1 kind e;
        },
        λ e. ground (arith, at_truncate g.alive_flags 0 e),
      )
