-- ===== src/Entity/Rack/Each.antt =====
-- `Registry::each`: which calls the loop over a rack makes, and what it leaves behind.
use hyprie.Base.{
  Option, ◌>>=◌, snoc, ◌++◌, append_nil, snoc-append, sym, ℕ, zero, suc, ◌+◌, ◌≡◌, ◌↔◌, ◌<◌, ◌≤◌,
  none, some, refl, ap, ◌∙◌, arith, ◌==◌, List, [], ◌∷◌, get_elem?, inl, inr, Bool-cases,
  Option-cases, Vault,
}
use hyprie.Entity.Rack.{Rack, invalid_slot, each, each_from, get}
use hyprie.Entity.Rack.Inv.{Inv, component, present, dense_in, get-component}

-- The state of a callback after it has been called with the entities and values of a list, in order.
pub calls : {T S : Type 0} → (ℕ → T → S → T × S) → S → List (ℕ × T) → S
calls func s [] = s
calls func s ((e, t) ∷ xs) = calls func (func e t s).1 xs

module _ (𝓥 : Vault) {T : Type 0} where
  open 𝓥 use {Vec, size, at, store, at_in, at_out, size_store, at_store}

  -- The entities and values of a rack in dense order, `n` of them from `i` on.
  pub entries_from : Vec ℕ → Vec T → ℕ → ℕ → List (ℕ × T)
  entries_from es ts i zero = []
  entries_from es ts i (suc n) =
      let rest = entries_from es ts (i + 1) n in
      elim (at es i) [ none ↦ [] | some e ↦ elim (at ts i) [ none ↦ [] | some t ↦ (e, t) ∷ rest ] ]

  pub entries : Rack 𝓥 T → List (ℕ × T)
  entries r = entries_from r.dense_entities r.dense_values 0 (size r.dense_values)

  entries_from-suc :
      (es : Vec ℕ) (ts : Vec T) (i n : ℕ) {e : ℕ} {t : T}
      → at es i ≡ some e
      → at ts i ≡ some t
      → entries_from es ts i (suc n) ≡ (e, t) ∷ entries_from es ts (i + 1) n
  unfolding entries_from
  entries_from-suc es ts i n he ht = ground arith

  -- A callback that changes no element but the one that it gets.
  abbrev pub own : {S : Type 0} → (ℕ → T → S → T × S) → ℕ → ℕ → Rack 𝓥 T → S → Option (Rack 𝓥 T × S)
  own func entity i r s = at r.dense_values i >>= λ value.
      let p = func entity value s in
      some (record r { dense_values = store r.dense_values i p.0 }, p.1)

  each_from-suc :
      {S : Type 0} (func : ℕ → T → S → T × S) (r : Rack 𝓥 T) (s : S) (i n : ℕ) {e : ℕ} {t : T}
      → at r.dense_entities i ≡ some e
      → at r.dense_values i ≡ some t
      → each_from 𝓥 (own func) r s i (suc n)
        ≡ each_from 𝓥
            (own func)
            (record r { dense_values = store r.dense_values i (func e t s).0 })
            (func e t s).1
            (i + 1)
            n
  unfolding each_from
  each_from-suc func r s i n he ht = rw (he, ht)

  entries_from-store :
      (es : Vec ℕ) (ts : Vec T) (j : ℕ) (t : T) (n i : ℕ)
      → j < i
      → j < size ts
      → entries_from es (store ts j t) i n ≡ entries_from es ts i n
  unfolding entries_from
  entries_from-store es ts j t zero i h k = refl
  entries_from-store es ts j t (suc n) i h k =
      ground (arith, entries_from-store es ts j t n (i + 1), at_store ts j t i)

  -- The entry at a position is the pair at that position of the two arrays.
  get_elem?-entries_from :
      (es : Vec ℕ) (ts : Vec T) (n i k : ℕ) {e : ℕ} {t : T}
      → i + n ≤ size es
      → i + n ≤ size ts
      → (get_elem? (entries_from es ts i n) k ≡ some (e, t))
        ↔ ((at es (i + k) ≡ some e) × (at ts (i + k) ≡ some t) × (k < n))
  unfolding entries_from
  get_elem?-entries_from es ts zero i k h g = (λ p. ground arith, λ q. ground arith)
  get_elem?-entries_from es ts (suc n) i zero {e} {t} h g =
      let (e', he) = at_in es i (omega arith) in
      let (t', ht) = at_in ts i (omega arith) in
      let z : i + 0 ≡ i = omega arith in
      rw (entries_from-suc es ts i n he ht, z) (λ p. ground arith, λ q. ground arith)
  get_elem?-entries_from es ts (suc n) i (suc k) {e} {t} h g =
      let (e', he) = at_in es i (omega arith) in
      let (t', ht) = at_in ts i (omega arith) in
      let z : i + suc k ≡ i + 1 + k = omega arith in
      let ih =
        get_elem?-entries_from es ts n (i + 1) k {e = e} {t = t} (omega arith) (omega arith) in
      rw (entries_from-suc es ts i n he ht, z)
        (
          (λ p. let q = ih.0 p in (q.0, q.1, omega (arith, q.2))),
          λ q. ih.1 (q.0, q.1, omega (arith, q.2)),
        )

  -- What a run of the loop has done from position `i` on.
  record Ran {S : Type 0} (func : ℕ → T → S → T × S) (r : Rack 𝓥 T) (s : S) (i n : ℕ) : Type 0 where
    last : Rack 𝓥 T
    result :
        each_from 𝓥 (own func) r s i n
        ≡ some (last, calls func s (entries_from r.dense_entities r.dense_values i n))
    entities : last.dense_entities ≡ r.dense_entities
    sparse : last.sparse_index ≡ r.sparse_index
    same_size : size last.dense_values ≡ size r.dense_values

  each_from-Ran :
      {S : Type 0} (func : ℕ → T → S → T × S) (n : ℕ) (r : Rack 𝓥 T) (s : S) (i : ℕ)
      → i + n ≤ size r.dense_entities
      → i + n ≤ size r.dense_values
      → Ran func r s i n
  unfolding each_from entries_from calls
  each_from-Ran func zero r s i h g = record {
    last = r;
    result = refl;
    entities = refl;
    sparse = refl;
    same_size = refl;
  }
  each_from-Ran func (suc n) r s i h g =
      let (e, he) = at_in r.dense_entities i (omega arith) in
      let (t, ht) = at_in r.dense_values i (omega arith) in
      let r' = record r { dense_values = store r.dense_values i (func e t s).0 } in
      let w =
        each_from-Ran func n r' (func e t s).1 (i + 1) (omega arith)
          (omega (arith, size_store r.dense_values i (func e t s).0)) in
      record {
        last = w.last;
        result =
            rw
              (
                each_from-suc func r s i n he ht,
                entries_from-suc r.dense_entities r.dense_values i n he ht,
              )
              (w.result
                ∙ ap (λ xs. some (w.last, calls func (func e t s).1 xs))
                    (entries_from-store r.dense_entities r.dense_values i (func e t s).0 n (i + 1)
                      (omega arith) (omega arith)));
        entities = w.entities;
        sparse = w.sparse;
        same_size = omega (arith, w.same_size, size_store r.dense_values i (func e t s).0);
      }

  same_present :
      (r r' : Rack 𝓥 T)
      → Inv 𝓥 r
      → r'.sparse_index ≡ r.sparse_index
      → size r'.dense_values ≡ size r.dense_values
      → (k : ℕ) → present 𝓥 (component 𝓥 r' k) ≡ present 𝓥 (component 𝓥 r k)
  same_present r r' v e g k = rw e (elim (Option-cases (at r.sparse_index k)) [
    | inl out ↦ ground arith
    | inr (slot, es) ↦ elim (Bool-cases (slot == invalid_slot)) [
      | inl off ↦ ground arith
      | inr on ↦
          let inside = dense_in 𝓥 v k slot es (ground arith) in
          let (t, et) = at_in r.dense_values slot inside in
          let (t', et') = at_in r'.dense_values slot (omega arith) in ground arith
    ]
  ])

  -- With a callback that changes no element but the one that it gets, `each` never faults. It calls
  -- the callback once for every element, in dense order, and however it rewrites the values, the
  -- invariant holds afterwards and the same entities have the
  -- component.
  pub each-calls :
      {S : Type 0} (func : ℕ → T → S → T × S) {r : Rack 𝓥 T} (s : S)
      → Inv 𝓥 r
      → (r' : Rack 𝓥 T) × (each 𝓥 (own func) r s ≡ some (r', calls func s (entries r)))
        × Inv 𝓥 r'
        × ((k : ℕ) → present 𝓥 (component 𝓥 r' k) ≡ present 𝓥 (component 𝓥 r k))
  unfolding each entries
  each-calls func {r} s v =
      let w =
        each_from-Ran func (size r.dense_values) r s 0 (omega (arith, v.paired)) (omega arith) in
      (
        w.last,
        w.result,
        record {
          paired = rw w.entities (omega (arith, v.paired, w.same_size));
          few = omega (arith, v.few, w.same_size);
          to_dense = rw (w.entities, w.sparse) v.to_dense;
          to_sparse = rw (w.entities, w.sparse) v.to_sparse;
        },
        λ k. same_present r w.last v w.sparse w.same_size k,
      )

  entries-component :
      {r : Rack 𝓥 T} (e : ℕ) (t : T)
      → Inv 𝓥 r
      → ((component 𝓥 r e ≡ some t) ↔ ((i : ℕ) × (get_elem? (entries r) i ≡ some (e, t))))
        × ((i j : ℕ) (t' : T)
            → get_elem? (entries r) i ≡ some (e, t)
            → get_elem? (entries r) j ≡ some (e, t')
            → i ≡ j)
  unfolding entries
  entries-component {r} e t v = ((find_entry, has_entry), once)
    where
      n : ℕ
      n = size r.dense_values

      at_entry :
          (i : ℕ) (t' : T)
          → (get_elem? (entries_from r.dense_entities r.dense_values 0 n) i ≡ some (e, t')) ↔ (
              (at r.dense_entities (0 + i) ≡ some e)
              × (at r.dense_values (0 + i) ≡ some t')
              × (i < n))
      at_entry i t' =
          get_elem?-entries_from r.dense_entities r.dense_values n 0 i (omega (arith, v.paired))
            (omega arith)

      find_entry : component 𝓥 r e ≡ some t → (i : ℕ) × (get_elem? (entries r) i ≡ some (e, t))
      find_entry h = elim (Option-cases (at r.sparse_index e)) [
        | inl out ↦ absurd (ground arith)
        | inr (slot, es) ↦ elim (Bool-cases (slot == invalid_slot)) [
          | inl off ↦ absurd (ground arith)
          | inr on ↦
              let z : 0 + slot ≡ slot = omega arith in
              (
                slot,
                (at_entry slot t).1 (
                    rw z (
                      v.to_dense e slot es (ground arith),
                      ground arith,
                      dense_in 𝓥 v e slot es (ground arith),
                    )),
              )
        ]
      ]

      has_entry : (i : ℕ) × (get_elem? (entries r) i ≡ some (e, t)) → component 𝓥 r e ≡ some t
      has_entry p =
          let z : 0 + p.0 ≡ p.0 = omega arith in
          let q = (at_entry p.0 t).0 p.1 in
          ground (arith, q.0, q.1, q.2, z, v.to_sparse p.0 e, v.few)

      once :
          (i j : ℕ) (t' : T)
          → get_elem? (entries r) i ≡ some (e, t)
          → get_elem? (entries r) j ≡ some (e, t')
          → i ≡ j
      once i j t' p q =
          let a = (at_entry i t).0 p in
          let b = (at_entry j t').0 q in
          let zi : 0 + i ≡ i = omega arith in
          let zj : 0 + j ≡ j = omega arith in
          ground (arith, a.0, b.0, zi, zj, v.to_sparse i e, v.to_sparse j e)

  -- A callback that notes down what it gets.
  abbrev pub note : ℕ → T → List (ℕ × T) → T × List (ℕ × T)
  note e t noted = (t, snoc noted (e, t))

  calls-note : (noted xs : List (ℕ × T)) → calls note noted xs ≡ noted ++ xs
  unfolding calls
  calls-note noted [] = sym (append_nil noted)
  calls-note noted ((e, t) ∷ xs) = calls-note (snoc noted (e, t)) xs ∙ snoc-append noted (e, t) xs

  inside_some : {a b : Option T} → some a ≡ some b → a ≡ b
  inside_some e = cc

  -- What `each` visits is what `get` finds: a callback that notes down what it gets is called with
  -- an entity and a value exactly if `get` returns the value for the entity, and with no entity twice.
  pub each-get :
      {r : Rack 𝓥 T}
      → Inv 𝓥 r
      → (r' : Rack 𝓥 T) × (noted : List (ℕ × T)) × (each 𝓥 (own note) r [] ≡ some (r', noted))
        × ((e : ℕ) (t : T)
            → (get 𝓥 r e ≡ some (some t)) ↔ ((i : ℕ) × (get_elem? noted i ≡ some (e, t))))
        × ((i j e : ℕ) (t t' : T)
            → get_elem? noted i ≡ some (e, t)
            → get_elem? noted j ≡ some (e, t')
            → i ≡ j)
  each-get {r} v =
      let (r', run, kept, same) = each-calls note [] v in
      (
        r',
        entries r,
        run ∙ ap (λ xs. some (r', xs)) (calls-note [] (entries r)),
        λ e t.
            let found = get-component 𝓥 e v in
            let (find_entry, has_entry) = (entries-component e t v).0 in
            ((λ h. find_entry (inside_some (sym found ∙ h))), λ p. found ∙ ap some (has_entry p)),
        λ i j e t t' p q. (entries-component e t v).1 i j t' p q,
      )
