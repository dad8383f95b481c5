-- ===== src/Entity/Registry/Components.antt =====
-- The component operations of the registry: `add`, `remove`, `get`, `has`.
use hyprie.Base.{
  ℕ, ◌≡◌, ◌<◌, true, false, Option, none, some, refl, ◌∙◌, ap, arith, ◌==◌, ◌&&◌, Vault, inl, inr,
  Bool-cases, if◌then◌else◌, List, get_elem?, set, length, get_elem?-set, get_elem?-out,
}
use mathlib.Core.Path.{subst}
use mathlib.Core.Option.{some-injective}
use hyprie.Entity.Rack.{Rack, invalid_slot}
use hyprie.Entity.Rack.Inv as RackInv
use hyprie.Entity.Rack.Add
use hyprie.Entity.Rack.Erase
use hyprie.Entity.Registry.{Registry, add, remove, get, has}
use hyprie.Entity.Registry.Racks.{AllInv, component}
use hyprie.Entity.Registry.Inv.{Inv, live}

module _ (𝓥 : Vault) {T : Type 0} where
  open 𝓥 use {size, at}

  -- The racks with one of them replaced.
  set-AllInv :
      (rs : List (Rack 𝓥 T)) (kind : ℕ) (r : Rack 𝓥 T)
      → kind < length rs
      → RackInv.Inv 𝓥 r
      → AllInv 𝓥 rs
      → AllInv 𝓥 (set rs kind r)
  set-AllInv rs kind r inside vr h k r' e = elim (Bool-cases (kind == k)) [
    | inl same ↦
        subst (RackInv.Inv 𝓥) (some-injective r r' (ground (arith, get_elem?-set rs kind r k))) vr
    | inr other ↦ h k r' (ground (arith, get_elem?-set rs kind r k))
  ]

  component-set :
      (rs : List (Rack 𝓥 T)) (kind : ℕ) (r : Rack 𝓥 T) (k e : ℕ)
      → kind < length rs
      → component 𝓥 (set rs kind r) k e
        ≡ (if kind == k then RackInv.component 𝓥 r e else component 𝓥 rs k e)
  component-set rs kind r k e inside = elim (Bool-cases (kind == k)) [
    | inl same ↦ rw (get_elem?-set rs kind r k inside, same) refl
    | inr other ↦ rw (get_elem?-set rs kind r k inside, other) refl
  ]

  -- The registry after an update of one component of one entity.
  pub record Updated (g : Registry 𝓥 T) (kind e : ℕ) (c : Option T) (out : Option (Registry 𝓥 T))
      : Type 0 where
    pub after : Registry 𝓥 T
    pub result : out ≡ some after
    pub inv : Inv 𝓥 after
    pub same_live : (k : ℕ) → live 𝓥 after k ≡ live 𝓥 g k
    pub update :
        (k j : ℕ)
        → component 𝓥 after.racks k j
          ≡ (if (kind == k) && (e == j) then c else component 𝓥 g.racks k j)

  module _ {g : Registry 𝓥 T} (v : Inv 𝓥 g) (kind e : ℕ) (c : Option T) {r : Rack 𝓥 T}
      (here : get_elem? g.racks kind ≡ some r) (r' : Rack 𝓥 T) (vr : RackInv.Inv 𝓥 r')
      (u : (k : ℕ)
        → RackInv.component 𝓥 r' k ≡ (if e == k then c else RackInv.component 𝓥 r k)) where
    inside : kind < length g.racks
    inside = ground (arith, get_elem?-out g.racks kind)

    component_here : (k j : ℕ) → kind ≡ k → RackInv.component 𝓥 r j ≡ component 𝓥 g.racks k j
    component_here k j p = rw (← p, here)

    replaced-update :
        (k j : ℕ)
        → component 𝓥 (set g.racks kind r') k j
          ≡ (if (kind == k) && (e == j) then c else component 𝓥 g.racks k j)
    replaced-update k j = component-set g.racks kind r' k j inside ∙ elim (Bool-cases (kind == k)) [
      | inl same ↦
          rw same (u j ∙ ap (λ x. if e == j then c else x) (component_here k j (ground arith)))
      | inr other ↦ rw other
    ]

    replaced-Inv :
        ((j : ℕ) → live 𝓥 g j ≡ false → e ≡ j → c ≡ none)
        → Inv 𝓥 (record g { racks = set g.racks kind r' })
    replaced-Inv keep = record {
      sizes = v.sizes;
      next_in = v.next_in;
      bound = v.bound;
      flags = v.flags;
      unborn = v.unborn;
      recycled_dead = v.recycled_dead;
      recycled_born = v.recycled_born;
      recycled_once = v.recycled_once;
      dead_recycled = v.dead_recycled;
      count = v.count;
      racks_ok = set-AllInv g.racks kind r' inside vr v.racks_ok;
      dead_empty = λ k j l. replaced-update k j ∙ ground (arith, v.dead_empty k j l, keep j l);
    }

  -- `add` to a live entity never faults while the rack has fewer than 0xFFFFFFFF components: it sets
  -- exactly that component of that entity and keeps the invariant.
  pub add-Updated :
      {g : Registry 𝓥 T} (kind e : ℕ) (t : T) {r : Rack 𝓥 T}
      → Inv 𝓥 g
      → live 𝓥 g e ≡ true
      → get_elem? g.racks kind ≡ some r
      → size r.dense_values < invalid_slot
      → Updated g kind e (some t) (add 𝓥 g kind e t)
  unfolding add
  add-Updated {g} kind e t {r} v l here room =
      let x = Add.add-Added 𝓥 e t (v.racks_ok kind r here) room in
      record {
        after = record g { racks = set g.racks kind x.after };
        result = rw (here, x.result);
        inv =
            replaced-Inv v kind e (some t) here x.after x.inv x.update
              (λ j dead same. absurd (ground arith));
        same_live = λ k. refl;
        update = replaced-update v kind e (some t) here x.after x.inv x.update;
      }

  -- `remove` never faults: it takes away exactly that component of that entity, if it has one.
  pub remove-Updated :
      {g : Registry 𝓥 T} (kind e : ℕ) {r : Rack 𝓥 T}
      → Inv 𝓥 g
      → get_elem? g.racks kind ≡ some r
      → Updated g kind e none (remove 𝓥 g kind e)
  unfolding remove
  remove-Updated {g} kind e {r} v here =
      let x = Erase.erase_entity-Erased 𝓥 e (v.racks_ok kind r here) in
      record {
        after = record g { racks = set g.racks kind x.after };
        result = rw (here, x.result);
        inv = replaced-Inv v kind e none here x.after x.inv x.update (λ j dead same. refl);
        same_live = λ k. refl;
        update = replaced-update v kind e none here x.after x.inv x.update;
      }

  -- `get` and `has` never fault on a registered component type, and agree with the component map.
  pub get-has-component :
      {g : Registry 𝓥 T} (kind e : ℕ) {r : Rack 𝓥 T}
      → Inv 𝓥 g
      → get_elem? g.racks kind ≡ some r
      → (get 𝓥 g kind e ≡ some (component 𝓥 g.racks kind e))
        × (has 𝓥 g kind e ≡ some (RackInv.present 𝓥 (component 𝓥 g.racks kind e)))
  unfolding get has
  get-has-component {g} kind e {r} v here = (
    rw here (RackInv.get-component 𝓥 e (v.racks_ok kind r here)),
    rw here (RackInv.has-component 𝓥 e (v.racks_ok kind r here)),
  )
