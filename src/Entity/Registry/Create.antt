-- ===== src/Entity/Registry/Create.antt =====
-- `Registry::create_entity`.
use hyprie.Base.{
  ℕ, ◌+◌, ◌-◌, ◌≡◌, ◌<◌, ◌≤◌, true, false, Option, none, some, refl, ◌∙◌, arith, ◌==◌, Vault, total,
  inl, inr, Bool-cases, ltb, leb, if◌then◌else◌, total_all-store, total_all-resize_suc, total-le,
  u32, u64,
}
use hyprie.Entity.Registry.{Registry, invalid_entity, create_entity, create_next, ensure_all}
use hyprie.Entity.Registry.Racks.{component, ensure_all-AllInv, component-ensure_all}
use hyprie.Entity.Registry.Inv.{Inv, live, flag_weight}

module _ (𝓥 : Vault) {T : Type 0} where
  open 𝓥 use {
    size, at, pop_back, store, resize, at_in, at_out, size_store, at_store, size_resize, at_resize,
    size_pop_back, at_pop_back,
  }

  -- What `create_entity` does.
  pub record Created (g : Registry 𝓥 T) (out : Option (Registry 𝓥 T × ℕ)) : Type 0 where
    pub after : Registry 𝓥 T
    pub entity : ℕ
    pub result : out ≡ some (after, entity)
    pub inv : Inv 𝓥 after
    pub valid : entity < invalid_entity
    pub was_dead : live 𝓥 g entity ≡ false
    pub update : (k : ℕ) → live 𝓥 after k ≡ (if entity == k then true else live 𝓥 g k)
    pub same_components : (kind k : ℕ) → component 𝓥 after.racks kind k ≡ component 𝓥 g.racks kind k
    pub no_components : (kind : ℕ) → component 𝓥 after.racks kind entity ≡ none
    pub counted : after.live_count ≡ g.live_count + 1

  create_entity-fresh :
      {g : Registry 𝓥 T}
      → ltb 0 (size g.recycled) ≡ false
      → Created g (create_next 𝓥 g)
      → Created g (create_entity 𝓥 g)
  unfolding create_entity
  create_entity-fresh none_left c = rw none_left c

  module _ {g : Registry 𝓥 T} (v : Inv 𝓥 g) where
    live_count-le : g.live_count ≤ size g.alive_flags
    live_count-le = ground (
      arith,
      v.count,
      total-le 𝓥 flag_weight g.alive_flags (size g.alive_flags) (λ i a h. v.flags i a h),
    )

    -- The sum of the flags after a dead number comes alive.
    revived :
        (e : ℕ)
        → at g.alive_flags e ≡ some 0
        → total 𝓥 flag_weight (store g.alive_flags e 1) (size (store g.alive_flags e 1))
          ≡ g.live_count + 1
    revived e h =
        ground
          (arith, v.count, at_out g.alive_flags e, total_all-store 𝓥 flag_weight g.alive_flags e 1)

    recycle-Created :
        (e : ℕ)
        → 0 < size g.recycled
        → at g.recycled (size g.recycled - 1) ≡ some e
        → Created g (create_entity 𝓥 g)
    unfolding create_entity
    recycle-Created e some_left h =
        let dead : at g.alive_flags e ≡ some 0 = v.recycled_dead _ e h in
        let inside : e < size g.alive_flags = ground (arith, at_out g.alive_flags e) in
        record {
          after = record g {
            recycled = pop_back g.recycled;
            alive_flags = store g.alive_flags e 1;
            live_count = u64 (g.live_count + 1);
          };
          entity = e;
          result = ground arith;
          inv = record {
            sizes = omega (arith, v.sizes, size_store g.alive_flags e 1);
            next_in = omega (arith, v.next_in, size_store g.alive_flags e 1);
            bound = omega (arith, v.bound, size_store g.alive_flags e 1);
            flags = λ k flag hk. ground (arith, at_store g.alive_flags e 1 k, v.flags k flag);
            unborn = λ k hk.
                ground (arith, at_store g.alive_flags e 1 k, v.unborn k, v.recycled_born _ e h);
            recycled_dead = λ j k hk. ground (
              arith,
              at_pop_back g.recycled j,
              at_store g.alive_flags e 1 k,
              v.recycled_dead j k,
              v.recycled_once j (size g.recycled - 1) e,
            );
            recycled_born = λ j k hk. ground (arith, at_pop_back g.recycled j, v.recycled_born j k);
            recycled_once = λ i j k hi hj.
                ground (
                  arith,
                  at_pop_back g.recycled i,
                  at_pop_back g.recycled j,
                  v.recycled_once i j k,
                );
            dead_recycled = λ k hk l.
                let (j, hj) = v.dead_recycled k hk (ground (arith, at_store g.alive_flags e 1 k)) in
                (
                  j,
                  ground (
                    arith,
                    at_pop_back g.recycled j,
                    at_out g.recycled j,
                    at_store g.alive_flags e 1 k,
                  ),
                );
            count = ground (arith, revived e dead, live_count-le, v.bound);
            racks_ok = v.racks_ok;
            dead_empty =
                λ kind k l. v.dead_empty kind k (ground (arith, at_store g.alive_flags e 1 k));
          };
          valid = ground (arith, inside, v.bound);
          was_dead = ground arith;
          update = λ k. ground (arith, at_store g.alive_flags e 1 k);
          same_components = λ kind k. refl;
          no_components = λ kind. v.dead_empty kind e (ground arith);
          counted = ground (arith, live_count-le, v.bound);
        }

    -- The next number lies beyond the tables.
    grow-Created :
        size g.generation ≤ g.next_entity
        → g.next_entity < invalid_entity
        → Created g (create_next 𝓥 g)
    unfolding create_next
    grow-Created full room =
        let n = g.next_entity in
        let end : size g.alive_flags ≡ n = omega (arith, v.sizes, v.next_in) in
        let at_new = at_resize g.alive_flags (n + 1) 1 in
        record {
          after = record g {
            generation = resize g.generation (n + 1) 1;
            alive_flags = resize g.alive_flags (n + 1) 1;
            racks = ensure_all 𝓥 g.racks (n + 1);
            next_entity = u32 (n + 1);
            live_count = u64 (g.live_count + 1);
          };
          entity = n;
          result = ground arith;
          inv = record {
            sizes =
                omega
                  (arith, size_resize g.generation (n + 1) 1, size_resize g.alive_flags (n + 1) 1);
            next_in = omega (arith, size_resize g.alive_flags (n + 1) 1);
            bound = omega (arith, size_resize g.alive_flags (n + 1) 1);
            flags = λ k flag hk. ground (arith, at_new k, v.flags k flag);
            unborn = λ k hk. ground (arith, at_new k);
            recycled_dead =
                λ j k hk. ground (arith, at_new k, v.recycled_dead j k hk, at_out g.alive_flags k);
            recycled_born = λ j k hk. omega (arith, v.recycled_born j k hk);
            recycled_once = v.recycled_once;
            dead_recycled =
                λ k hk l. v.dead_recycled k (ground (arith, at_new k)) (ground (arith, at_new k));
            count = rw (size_resize g.alive_flags (n + 1) 1) (
                ground (
                  arith,
                  v.count,
                  total_all-resize_suc 𝓥 flag_weight g.alive_flags 1,
                  end,
                  live_count-le,
                  v.bound,
                ));
            racks_ok = ensure_all-AllInv 𝓥 g.racks (n + 1) v.racks_ok;
            dead_empty = λ kind k l.
                component-ensure_all 𝓥 g.racks (n + 1) kind k
                ∙ v.dead_empty kind k (ground (arith, at_new k, at_out g.alive_flags k));
          };
          valid = room;
          was_dead = ground (arith, at_out g.alive_flags n);
          update = λ k. ground (arith, at_new k, at_out g.alive_flags k);
          same_components = component-ensure_all 𝓥 g.racks (n + 1);
          no_components = λ kind.
              component-ensure_all 𝓥 g.racks (n + 1) kind n
              ∙ v.dead_empty kind n (ground (arith, at_out g.alive_flags n));
          counted = ground (arith, live_count-le, v.bound);
        }

    -- The next number lies in tables that were reserved.
    reserved-Created :
        g.next_entity < size g.generation
        → g.next_entity < invalid_entity
        → Created g (create_next 𝓥 g)
    unfolding create_next
    reserved-Created inside room =
        let n = g.next_entity in
        let (flag, hf) = at_in g.alive_flags n (omega (arith, v.sizes)) in
        let dead : at g.alive_flags n ≡ some 0 = ground (arith, v.unborn n) in
        let at_new = at_store g.alive_flags n 1 in
        record {
          after = record g {
            alive_flags = store g.alive_flags n 1;
            next_entity = u32 (n + 1);
            live_count = u64 (g.live_count + 1);
          };
          entity = n;
          result = ground (arith, v.sizes);
          inv = record {
            sizes = omega (arith, v.sizes, size_store g.alive_flags n 1);
            next_in = omega (arith, v.sizes, size_store g.alive_flags n 1);
            bound = omega (arith, v.bound, size_store g.alive_flags n 1);
            flags = λ k f hk. ground (arith, v.sizes, at_new k, v.flags k f);
            unborn = λ k hk. ground (arith, v.sizes, at_new k, v.unborn k);
            recycled_dead = λ j k hk.
                ground (arith, v.sizes, at_new k, v.recycled_dead j k hk, v.recycled_born j k hk);
            recycled_born = λ j k hk. omega (arith, v.recycled_born j k hk);
            recycled_once = v.recycled_once;
            dead_recycled = λ k hk l.
                v.dead_recycled k (ground (arith, v.sizes, at_new k))
                  (ground (arith, v.sizes, at_new k));
            count = ground (arith, revived n dead, live_count-le, v.bound);
            racks_ok = v.racks_ok;
            dead_empty = λ kind k l. v.dead_empty kind k (ground (arith, v.sizes, at_new k));
          };
          valid = room;
          was_dead = ground arith;
          update = λ k. ground (arith, v.sizes, at_new k);
          same_components = λ kind k. refl;
          no_components = λ kind. v.dead_empty kind n (ground arith);
          counted = ground (arith, live_count-le, v.bound);
        }

  -- `create_entity` never faults while a recycled number or a number below 0xFFFFFFFF is left. It
  -- keeps the invariant, brings to life one number that was dead and has no component of any type,
  -- leaves all components as they are, and counts the entity.
  pub create_entity-Created :
      {g : Registry 𝓥 T}
      → Inv 𝓥 g
      → (size g.recycled ≡ 0 → g.next_entity < invalid_entity)
      → Created g (create_entity 𝓥 g)
  create_entity-Created {g} v room = elim (Bool-cases (ltb 0 (size g.recycled))) [
    | inl some_left ↦
        let (e, h) = at_in g.recycled (size g.recycled - 1) (ground arith) in
        recycle-Created v e (ground arith) h
    | inr none_left ↦
        create_entity-fresh none_left (elim (Bool-cases (leb (size g.generation) g.next_entity)) [
          | inl full ↦ grow-Created v (ground arith) (room (ground arith))
          | inr inside ↦ reserved-Created v (ground arith) (room (ground arith))
        ])
  ]
