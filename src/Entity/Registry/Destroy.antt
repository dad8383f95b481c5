-- ===== src/Entity/Registry/Destroy.antt =====
-- `Registry::destroy_entity`.
use hyprie.Base.{
  ℕ, ◌+◌, ◌-◌, ◌≡◌, ◌<◌, true, false, Option, none, some, ◌∙◌, arith, ◌==◌, Vault, inl, inr,
  Option-cases, Bool-cases, leb, if◌then◌else◌, total_all-store, total-ge, u32,
}
use hyprie.Entity.Registry.{Registry, destroy_entity, retire}
use hyprie.Entity.Registry.Racks.{component, erase_all-AllErased}
use hyprie.Entity.Registry.Inv.{Inv, live, flag_weight}

module _ (𝓥 : Vault) {T : Type 0} where
  open 𝓥 use {
    size, at, push_back, store, at_in, at_out, size_store, at_store, size_push_back, at_push_back,
  }

  -- What `destroy_entity` does to the entities and their components.
  pub record Destroyed (g : Registry 𝓥 T) (e : ℕ) (out : Option (Registry 𝓥 T)) : Type 0 where
    pub after : Registry 𝓥 T
    pub result : out ≡ some after
    pub inv : Inv 𝓥 after
    pub update : (k : ℕ) → live 𝓥 after k ≡ (if e == k then false else live 𝓥 g k)
    pub components :
        (kind k : ℕ)
        → component 𝓥 after.racks kind k ≡ (if e == k then none else component 𝓥 g.racks kind k)
    pub counted : after.live_count + (if live 𝓥 g e then 1 else 0) ≡ g.live_count

  module _ {g : Registry 𝓥 T} (e : ℕ) (v : Inv 𝓥 g) where
    retire-Destroyed : live 𝓥 g e ≡ true → Destroyed g e (retire 𝓥 g e)
    unfolding retire
    retire-Destroyed l =
        let inside : e < size g.alive_flags = ground (arith, at_out g.alive_flags e) in
        let one : at g.alive_flags e ≡ some 1 = flag_one l in
        let (age, ha) = at_in g.generation e (omega (arith, v.sizes)) in
        let x = erase_all-AllErased 𝓥 g.racks e v.racks_ok in
        let at_new = at_store g.alive_flags e 0 in
        let positive : 0 < g.live_count =
          ground (arith, v.count, total-ge 𝓥 flag_weight g.alive_flags e (size g.alive_flags)) in
        record {
          after = record g {
            racks = x.after;
            alive_flags = store g.alive_flags e 0;
            generation = store g.generation e (u32 (age + 1));
            recycled = push_back g.recycled e;
            live_count = g.live_count - 1;
          };
          result = rw x.result (ground (arith, v.sizes));
          inv = record {
            sizes = omega (
              arith,
              v.sizes,
              size_store g.alive_flags e 0,
              size_store g.generation e (u32 (age + 1)),
            );
            next_in = omega (arith, v.next_in, size_store g.alive_flags e 0);
            bound = omega (arith, v.bound, size_store g.alive_flags e 0);
            flags = λ k flag hk. ground (arith, at_new k, v.flags k flag);
            unborn = λ k hk. ground (arith, at_new k, v.unborn k);
            recycled_dead = λ j k hk.
                ground (arith, at_new k, at_push_back g.recycled e j, v.recycled_dead j k);
            recycled_born = λ j k hk.
                ground (arith, at_push_back g.recycled e j, v.recycled_born j k, v.unborn e);
            recycled_once = λ i j k hi hj. ground (
              arith,
              at_push_back g.recycled e i,
              at_push_back g.recycled e j,
              v.recycled_once i j k,
              v.recycled_dead i e,
              v.recycled_dead j e,
            );
            dead_recycled = λ k hk lk. elim (Bool-cases (e == k)) [
              | inl same ↦
                  (size g.recycled, ground (arith, at_push_back g.recycled e (size g.recycled)))
              | inr other ↦
                  let (j, hj) = v.dead_recycled k hk (ground (arith, at_new k)) in
                  (j, ground (arith, at_push_back g.recycled e j, at_out g.recycled j))
            ];
            count =
                ground (arith, v.count, positive, total_all-store 𝓥 flag_weight g.alive_flags e 0);
            racks_ok = x.inv;
            dead_empty =
                λ kind k lk. x.update kind k ∙ ground (arith, at_new k, v.dead_empty kind k);
          };
          update = λ k. ground (arith, at_new k);
          components = x.update;
          counted = ground (arith, positive);
        }
      where
        flag_one : live 𝓥 g e ≡ true → at g.alive_flags e ≡ some 1
        flag_one l = elim (Option-cases (at g.alive_flags e)) [
          | inl out ↦ absurd (ground arith)
          | inr (flag, h) ↦ ground (arith, v.flags e flag h)
        ]

    -- A number that is not alive.
    ignored-Destroyed :
        live 𝓥 g e ≡ false → destroy_entity 𝓥 g e ≡ some g → Destroyed g e (destroy_entity 𝓥 g e)
    ignored-Destroyed l same = record {
      after = g;
      result = same;
      inv = v;
      update = λ k. ground arith;
      components = λ kind k. ground (arith, v.dead_empty kind k);
      counted = ground arith;
    }

  -- `destroy_entity` never faults. It keeps the invariant, ends exactly the given entity and takes
  -- away exactly its components, of every type; for a number that is not alive it changes nothing.
  pub destroy_entity-Destroyed :
      {g : Registry 𝓥 T} (e : ℕ) → Inv 𝓥 g → Destroyed g e (destroy_entity 𝓥 g e)
  unfolding destroy_entity
  destroy_entity-Destroyed {g} e v = elim (Option-cases (at g.alive_flags e)) [
    | inl out ↦
        ignored-Destroyed e v (ground arith) (ground (arith, at_in g.alive_flags e, v.sizes))
    | inr (flag, h) ↦
        let within : leb (size g.generation) e ≡ false =
          ground (arith, at_out g.alive_flags e, v.sizes) in
        elim (Bool-cases (flag == 0)) [
          | inl dead ↦ ignored-Destroyed e v (ground arith) (rw (within, h, dead))
          | inr on ↦ rw (within, h, on) (retire-Destroyed e v (ground arith))
        ]
  ]
