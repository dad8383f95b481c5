-- ===== src/Layer/Stack/Transitions.antt =====
-- `LayerStack::apply_pending_transitions`: layers that take the places of others.
use hyprie.Base.{
  ◌>>=◌, Option, none, Option-cases, append_assoc, append_nil, ◌+◌, ◌≡◌, ◌<◌, inl, inr, some, List,
  [], ◌∷◌, ◌++◌, Sequence, length, get_elem?, set, refl, ap, sym, subst, ◌∙◌, arith,
}
use hyprie.Layer.Stack.{
  Shared, Methods, LayerStack, call_at, call_outside, transit_from, apply_pending_transitions,
}
use hyprie.Layer.Stack.Order.{push_all-pending}

-- The layers from the bottom up behind the transitions, and what else is left behind.
pub record Changed (Layer Event World : Type 0) : Type 0 where
  pub layers : List Layer
  pub shared : Shared World
  pub pushed : List Event

module _ {Layer Event World F : Type 0} (𝓜 : Methods Layer Event World F) where
  -- What follows a layer.
  abbrev pub above :
      Layer → List Event → Option (Changed Layer Event World) → Option (Changed Layer Event World)
  above l pushed rest = rest >>= λ r.
      some (record { layers = l ∷ r.layers; shared = r.shared; pushed = pushed ++ r.pushed })

  -- A layer with no transition stays; one with a transition is detached, and then the next one is
  -- attached in its place. `none` where a layer faults.
  unfoldable pub replace : List Layer → Shared World → Option (Changed Layer Event World)
  replace [] shared = some (record { layers = []; shared = shared; pushed = [] })
  replace (l ∷ ls) shared = elim (𝓜.take_transition l).0 [
    | none ↦ above (𝓜.take_transition l).1 [] (replace ls shared)
    | some l' ↦ 𝓜.on_detach (𝓜.take_transition l).1 shared >>= λ gone.
        𝓜.on_attach l' gone.shared >>= λ come.
        above come.layer (gone.pushed ++ come.pushed) (replace ls come.shared)
  ]

  replace_stays :
      (l : Layer) (ls : List Layer) (shared : Shared World)
      → (𝓜.take_transition l).0 ≡ none
      → replace (l ∷ ls) shared ≡ above (𝓜.take_transition l).1 [] (replace ls shared)
  unfolding replace
  replace_stays l ls shared h = rw (replace, h) refl

  replace_next :
      (l l' : Layer) (ls : List Layer) (shared : Shared World)
      → (𝓜.take_transition l).0 ≡ some l'
      → replace (l ∷ ls) shared ≡ (
          𝓜.on_detach (𝓜.take_transition l).1 shared >>= λ gone.
          𝓜.on_attach l' gone.shared >>= λ come.
          above come.layer (gone.pushed ++ come.pushed) (replace ls come.shared))
  unfolding replace
  replace_next l l' ls shared h = rw (replace, h) refl

module _ {A : Type 0} where
  get_elem?-middle :
      (xs : List A) (a : A) (ys : List A) → get_elem? (xs ++ a ∷ ys) (length xs) ≡ some a
  get_elem?-middle [] a ys = refl
  get_elem?-middle (x ∷ xs) a ys = get_elem?-middle xs a ys

  set-middle :
      (xs : List A) (a b : A) (ys : List A) → set (xs ++ a ∷ ys) (length xs) b ≡ xs ++ b ∷ ys
  set-middle [] a b ys = refl
  set-middle (x ∷ xs) a b ys = ap (λ l. x ∷ l) (set-middle xs a b ys)

  length-middle : (xs : List A) (a : A) (ys : List A) → length xs < length (xs ++ a ∷ ys)
  length-middle [] a ys = omega arith
  length-middle (x ∷ xs) a ys = omega (arith, length-middle xs a ys)

  length-end : (xs : List A) (a : A) → length (xs ++ a ∷ []) ≡ length xs + 1
  length-end [] a = refl
  length-end (x ∷ xs) a = omega (arith, length-end xs a)

module _ (𝓢 : Sequence) {Layer Event World F : Type 0} (𝓜 : Methods Layer Event World F) where
  -- The stack faults where the layers do, and otherwise has the changed layers on top of `below`,
  -- with the events that were pushed behind those that waited.
  abbrev pub Replaced :
      LayerStack 𝓢 Layer Event World
      → List Layer
      → Option (LayerStack 𝓢 Layer Event World)
      → Option (Changed Layer Event World)
      → Type 0
  Replaced s below result none = result ≡ none
  Replaced s below result (some r) =
      (t : LayerStack 𝓢 Layer Event World) × (result ≡ some t)
      × (𝓢.content t.layers ≡ below ++ r.layers)
      × (t.shared ≡ r.shared)
      × (𝓢.content t.event_queue.pending ≡ 𝓢.content s.event_queue.pending ++ r.pushed)
      × (t.event_queue.frozen ≡ s.event_queue.frozen)
      × (t.insert_index ≡ s.insert_index)

  -- What follows the layer `l`.
  above_lem :
      (s u : LayerStack 𝓢 Layer Event World) (below : List Layer) (l : Layer) (pushed : List Event)
      (result : Option (LayerStack 𝓢 Layer Event World)) (rest : Option (Changed Layer Event World))
      → 𝓢.content u.event_queue.pending ≡ 𝓢.content s.event_queue.pending ++ pushed
      → u.event_queue.frozen ≡ s.event_queue.frozen
      → u.insert_index ≡ s.insert_index
      → Replaced u (below ++ l ∷ []) result rest
      → Replaced s below result (above 𝓜 l pushed rest)
  above_lem s u below l pushed result none waits still same h = h
  above_lem s u below l pushed result (some r) waits still same
        (t, run, content, shared, pending, frozen, index) =
      (
        t,
        run,
        content ∙ append_assoc below (l ∷ []) r.layers,
        shared,
        pending
            ∙ ap (λ c. c ++ r.pushed) waits
            ∙ append_assoc (𝓢.content s.event_queue.pending) pushed r.pushed,
        frozen ∙ still,
        index ∙ same,
      )

  transit_from-Replaced :
      (ls below : List Layer) (s : LayerStack 𝓢 Layer Event World)
      → 𝓢.content s.layers ≡ below ++ ls
      → Replaced s below (transit_from 𝓢 𝓜 (length below) (length ls) s) (replace 𝓜 ls s.shared)
  unfolding transit_from replace
  transit_from-Replaced [] below s h = (s, refl, h, refl, sym (append_nil _), refl, refl)
  transit_from-Replaced (l ∷ ls) below s h =
      let here : 𝓢.at s.layers (length below) ≡ some l =
        𝓢.at-content s.layers (length below)
        ∙ ap (λ c. get_elem? c (length below)) h
        ∙ get_elem?-middle below l ls in
      let bound : length below < 𝓢.size s.layers =
        omega (arith, 𝓢.size-content s.layers, ap length h, length-middle below l ls) in
      let stored : (b : Layer)
          → 𝓢.content (𝓢.store s.layers (length below) b) ≡ (below ++ b ∷ []) ++ ls =
        λ b.
          𝓢.content-store s.layers (length below) b bound
          ∙ ap (λ c. set c (length below) b) h
          ∙ set-middle below l b ls
          ∙ sym (append_assoc below (b ∷ []) ls) in
      let on : (b : Layer) (u : LayerStack 𝓢 Layer Event World)
          → 𝓢.content u.layers ≡ (below ++ b ∷ []) ++ ls
          → Replaced u (below ++ b ∷ []) (transit_from 𝓢 𝓜 (length below + 1) (length ls) u)
              (replace 𝓜 ls u.shared) =
        λ b u e.
          subst
            (λ n.
              Replaced u (below ++ b ∷ []) (transit_from 𝓢 𝓜 n (length ls) u)
                (replace 𝓜 ls u.shared))
            (length-end below b) (transit_from-Replaced ls (below ++ b ∷ []) u e) in
      let left = (𝓜.take_transition l).1 in
      elim (Option-cases (𝓜.take_transition l).0) [
        | inl stays ↦
            let u = record s { layers = 𝓢.store s.layers (length below) left } in
            rw (here, replace_stays 𝓜 l ls s.shared stays, stays)
              (above_lem s u below left [] _ _ (sym (append_nil _)) refl refl
                (on left u (stored left)))
        | inr (l', next) ↦
            let spec = replace_next 𝓜 l l' ls s.shared next in
            elim (Option-cases (𝓜.on_detach left s.shared)) [
              | inl fault ↦ rw (here, spec, next, fault) refl
              | inr (gone, detached) ↦
                  let d = call_outside 𝓢 𝓜 s gone in
                  elim (Option-cases (𝓜.on_attach l' gone.shared)) [
                    | inl fault ↦ rw (here, spec, next, detached, fault) refl
                    | inr (come, attached) ↦
                        let u = call_at 𝓢 𝓜 d (length below) come in
                        let (waits, still) = push_all-pending 𝓢 s.event_queue gone.pushed in
                        let (waits', still') = push_all-pending 𝓢 d.event_queue come.pushed in
                        rw (here, spec, next, detached, attached)
                          (above_lem s u below come.layer (gone.pushed ++ come.pushed) _ _
                            (waits'
                              ∙ ap (λ c. c ++ come.pushed) waits
                              ∙ append_assoc (𝓢.content s.event_queue.pending) gone.pushed
                                  come.pushed)
                            (still' ∙ still) refl (on come.layer u (stored come.layer)))
                  ]
            ]
      ]

  -- `apply_pending_transitions` faults exactly where a layer does that it detaches or attaches.
  -- Otherwise, from the bottom up, every layer with a transition is detached and then the next layer
  -- is attached in its place, all others stay in theirs, what the layers push in the calls waits
  -- behind the events that wait, in its order, and the frozen events and the index stay.
  pub apply_pending_transitions-replace :
      (s : LayerStack 𝓢 Layer Event World)
      → Replaced s [] (apply_pending_transitions 𝓢 𝓜 s) (replace 𝓜 (𝓢.content s.layers) s.shared)
  unfolding apply_pending_transitions
  apply_pending_transitions-replace s =
      rw (𝓢.size-content s.layers) (transit_from-Replaced (𝓢.content s.layers) [] s refl)
