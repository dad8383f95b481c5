-- ===== src/Entity/Registry/Racks.antt =====
-- The operations on all racks of a registry, and the component of an entity in a rack.
use hyprie.Base.{
  ℕ, zero, suc, ◌≡◌, Option, none, some, refl, arith, ◌==◌, if◌then◌else◌, List, [], ◌∷◌, get_elem?,
  Vault,
}
use hyprie.Entity.Rack.{Rack}
use hyprie.Entity.Rack.Inv
use hyprie.Entity.Rack.Add
use hyprie.Entity.Rack.Erase
use hyprie.Entity.Registry.{ensure_all, erase_all, clear_all}
use mathlib.Core.Path.{subst}
use mathlib.Core.Option.{some-injective}

module _ (𝓥 : Vault) {T : Type 0} where
  abbrev pub component_of : Option (Rack 𝓥 T) → ℕ → Option T
  component_of none e = none
  component_of (some r) e = Inv.component 𝓥 r e

  -- The component of type `kind` of an entity.
  abbrev pub component : List (Rack 𝓥 T) → ℕ → ℕ → Option T
  component rs kind e = component_of (get_elem? rs kind) e

  abbrev pub AllInv : List (Rack 𝓥 T) → Type 0
  AllInv rs = (kind : ℕ) (r : Rack 𝓥 T) → get_elem? rs kind ≡ some r → Inv.Inv 𝓥 r

  cons-Inv : (r : Rack 𝓥 T) (rs : List (Rack 𝓥 T)) → Inv.Inv 𝓥 r → AllInv rs → AllInv (r ∷ rs)
  cons-Inv r rs v vs zero r' e = subst (Inv.Inv 𝓥) (some-injective _ _ e) v
  cons-Inv r rs v vs (suc kind) r' e = vs kind r' e

  cons_update :
      (r : Rack 𝓥 T) (rs : List (Rack 𝓥 T)) (e : ℕ) (r' : Rack 𝓥 T) (rs' : List (Rack 𝓥 T))
      → ((k : ℕ) → Inv.component 𝓥 r' k ≡ (if e == k then none else Inv.component 𝓥 r k))
      → ((kind k : ℕ) → component rs' kind k ≡ (if e == k then none else component rs kind k))
      → (kind k : ℕ)
      → component (r' ∷ rs') kind k ≡ (if e == k then none else component (r ∷ rs) kind k)
  cons_update r rs e r' rs' u us zero k = u k
  cons_update r rs e r' rs' u us (suc kind) k = us kind k

  cons_none :
      (r : Rack 𝓥 T) (rs : List (Rack 𝓥 T))
      → ((k : ℕ) → Inv.component 𝓥 r k ≡ none)
      → ((kind k : ℕ) → component rs kind k ≡ none)
      → (kind k : ℕ) → component (r ∷ rs) kind k ≡ none
  cons_none r rs u us zero k = u k
  cons_none r rs u us (suc kind) k = us kind k

  pub ensure_all-AllInv :
      (rs : List (Rack 𝓥 T)) (capacity : ℕ) → AllInv rs → AllInv (ensure_all 𝓥 rs capacity)
  unfolding ensure_all
  ensure_all-AllInv [] capacity h kind r e = h kind r e
  ensure_all-AllInv (r ∷ rs) capacity h zero r' e =
      subst (Inv.Inv 𝓥) (some-injective _ _ e)
        (Add.ensure_sparse_capacity-Inv 𝓥 capacity (h zero r refl))
  ensure_all-AllInv (r ∷ rs) capacity h (suc kind) r' e =
      ensure_all-AllInv rs capacity (λ k. h (suc k)) kind r' e

  pub component-ensure_all :
      (rs : List (Rack 𝓥 T)) (capacity kind e : ℕ)
      → component (ensure_all 𝓥 rs capacity) kind e ≡ component rs kind e
  unfolding ensure_all
  component-ensure_all [] capacity kind e = refl
  component-ensure_all (r ∷ rs) capacity zero e =
      Add.component-ensure_sparse_capacity 𝓥 r capacity e
  component-ensure_all (r ∷ rs) capacity (suc kind) e = component-ensure_all rs capacity kind e

  pub record AllErased (rs : List (Rack 𝓥 T)) (e : ℕ) : Type 0 where
    pub after : List (Rack 𝓥 T)
    pub result : erase_all 𝓥 rs e ≡ some after
    pub inv : AllInv after
    pub update :
        (kind k : ℕ) → component after kind k ≡ (if e == k then none else component rs kind k)

  pub erase_all-AllErased : (rs : List (Rack 𝓥 T)) (e : ℕ) → AllInv rs → AllErased rs e
  unfolding erase_all
  erase_all-AllErased [] e h = record {
    after = [];
    result = refl;
    inv = h;
    update = λ kind k. ground arith;
  }
  erase_all-AllErased (r ∷ rs) e h =
      let x = Erase.erase_entity-Erased 𝓥 e (h zero r refl) in
      let xs = erase_all-AllErased rs e (λ k. h (suc k)) in
      record {
        after = x.after ∷ xs.after;
        result = rw (x.result, xs.result);
        inv = cons-Inv x.after xs.after x.inv xs.inv;
        update = cons_update r rs e x.after xs.after x.update xs.update;
      }

  pub clear_all-AllInv :
      (rs : List (Rack 𝓥 T))
      → AllInv (clear_all 𝓥 rs) × ((kind k : ℕ) → component (clear_all 𝓥 rs) kind k ≡ none)
  unfolding clear_all
  clear_all-AllInv [] = ((λ kind r e. absurd (ground arith)), λ kind k. refl)
  clear_all-AllInv (r ∷ rs) =
      let x = Add.clear-Inv 𝓥 r in
      let xs = clear_all-AllInv rs in (cons-Inv _ _ x.0 xs.0, cons_none _ _ x.1 xs.1)
