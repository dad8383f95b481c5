-- ===== src/Layer/Stack/Events.antt =====
-- How `process_events` hands the waiting events to the layers.
use hyprie.Base.{
  ◌>>=◌, Option, none, Option-cases, append_assoc, append_nil, ℕ, suc, ◌+◌, ◌≡◌, ◌<◌, inl, inr,
  false, some, List, [], ◌∷◌, ◌++◌, ◌==◌, if◌then◌else◌, Sequence, length, get_elem?, set,
  length-set, get_elem?-set, refl, ap, sym, subst, ◌∙◌, arith, Bool-cases,
}
use hyprie.Event.EventQueue.{freeze, clear}
use hyprie.Layer.Stack.{
  Called, Shared, Methods, LayerStack, call_at, deliver_from, deliver_events, process_events,
}
use hyprie.Layer.Stack.Order.{push_all-pending}
use hyprie.Layer.Stack.TopDown.{
  put_below, top_down, top_down_twice, length-put_below, at_top, store_top,
}

-- The layers from the top down, and what else an event leaves behind.
pub record Routed (Layer Event World : Type 0) : Type 0 where
  pub layers : List Layer
  pub event : Event
  pub shared : Shared World
  pub pushed : List Event

pub record Done (Layer Event World : Type 0) : Type 0 where
  pub layers : List Layer
  pub shared : Shared World
  pub pushed : List Event

module _ {Layer Event World F : Type 0} (𝓜 : Methods Layer Event World F) where
  -- An event goes from layer to layer until one leaves it handled; `none` where a layer faults.
  unfoldable pub route : List Layer → Event → Shared World → Option (Routed Layer Event World)
  route [] event shared = some (record { layers = []; event = event; shared = shared; pushed = [] })
  route (l ∷ ls) event shared = 𝓜.on_event l event shared >>= λ p.
      if 𝓜.handled p.1
      then some (record {
        layers = p.0.layer ∷ ls;
        event = p.1;
        shared = p.0.shared;
        pushed = p.0.pushed;
      })
      else (route ls p.1 p.0.shared >>= λ rest. some (record {
        layers = p.0.layer ∷ rest.layers;
        event = rest.event;
        shared = rest.shared;
        pushed = p.0.pushed ++ rest.pushed;
      }))

  -- The events one after the other.
  unfoldable pub route_all :
      List Event → List Layer → Shared World → Option (Done Layer Event World)
  route_all [] ls shared = some (record { layers = ls; shared = shared; pushed = [] })
  route_all (e ∷ es) ls shared = do
    r ← route ls e shared
    rest ← route_all es r.layers r.shared
    some (record rest { pushed = r.pushed ++ rest.pushed })

module _ (𝓢 : Sequence) {Layer Event World F : Type 0} (𝓜 : Methods Layer Event World F) where
  -- What becomes of a stack when an event has been routed through the layers below `above`.
  record Through (s t : LayerStack 𝓢 Layer Event World) (above : List Layer)
      (r : Routed Layer Event World) : Type 0 where
    content : 𝓢.content t.layers ≡ put_below r.layers above
    shared : t.shared ≡ r.shared
    pending : 𝓢.content t.event_queue.pending ≡ 𝓢.content s.event_queue.pending ++ r.pushed
    frozen : t.event_queue.frozen ≡ s.event_queue.frozen
    index : t.insert_index ≡ s.insert_index

  abbrev Delivered :
      LayerStack 𝓢 Layer Event World
      → List Layer
      → Option (LayerStack 𝓢 Layer Event World × Event)
      → Option (Routed Layer Event World)
      → Type 0
  Delivered s above result none = result ≡ none
  Delivered s above result (some r) =
      (t : LayerStack 𝓢 Layer Event World) × (result ≡ some (t, r.event)) × Through s t above r

  -- What follows a call that leaves the event unhandled.
  below_lem :
      (s : LayerStack 𝓢 Layer Event World) (above : List Layer) (i : ℕ)
      (called : Called Layer Event World) (result : Option (LayerStack 𝓢 Layer Event World × Event))
      (rest : Option (Routed Layer Event World))
      → Delivered (call_at 𝓢 𝓜 s i called) (called.layer ∷ above) result rest
      → Delivered s above result (
          rest >>= λ r. some (record {
            layers = called.layer ∷ r.layers;
            event = r.event;
            shared = r.shared;
            pushed = called.pushed ++ r.pushed;
          }))
  below_lem s above i called result none d = d
  below_lem s above i called result (some r) (t, run, through) =
      let (waits, still) = push_all-pending 𝓢 s.event_queue called.pushed in
      (
        t,
        run,
        record {
          content = through.content;
          shared = through.shared;
          pending =
              through.pending
              ∙ ap (λ c. c ++ r.pushed) waits
              ∙ append_assoc (𝓢.content s.event_queue.pending) called.pushed r.pushed;
          frozen = through.frozen ∙ still;
          index = through.index;
        },
      )

  deliver_from-Delivered :
      (ts above : List Layer) (s : LayerStack 𝓢 Layer Event World) (e : Event)
      → 𝓢.content s.layers ≡ put_below ts above
      → Delivered s above (deliver_from 𝓢 𝓜 (length ts) s e) (route 𝓜 ts e s.shared)
  unfolding deliver_from route
  deliver_from-Delivered [] above s e h = (
    s,
    refl,
    record {
      content = h;
      shared = refl;
      pending = sym (append_nil _);
      frozen = refl;
      index = refl;
    },
  )
  deliver_from-Delivered (l ∷ ts) above s e h =
      let here = at_top 𝓢 ts above s l h in
      elim (Option-cases (𝓜.on_event l e s.shared)) [
        | inl fault ↦ rw (here, fault) refl
        | inr (p, call) ↦
            let (waits, still) = push_all-pending 𝓢 s.event_queue p.0.pushed in
            let stored = store_top 𝓢 ts above s l p.0.layer h in
            let next = call_at 𝓢 𝓜 s (length ts) p.0 in
            elim (Bool-cases (𝓜.handled p.1)) [
              | inl over ↦
                  rw (here, call, over)
                    (
                      next,
                      refl,
                      record {
                        content = stored;
                        shared = refl;
                        pending = waits;
                        frozen = still;
                        index = refl;
                      },
                    )
              | inr unhandled ↦
                  rw (here, call, unhandled)
                    (below_lem s above (length ts) p.0 _ _
                      (deliver_from-Delivered ts (p.0.layer ∷ above) next p.1 stored))
            ]
      ]

  -- What becomes of a stack when events have been routed through all layers.
  record Processed (s t : LayerStack 𝓢 Layer Event World) (d : Done Layer Event World)
      : Type 0 where
    content : 𝓢.content t.layers ≡ top_down d.layers
    shared : t.shared ≡ d.shared
    pending : 𝓢.content t.event_queue.pending ≡ 𝓢.content s.event_queue.pending ++ d.pushed
    index : t.insert_index ≡ s.insert_index

  abbrev Ran :
      LayerStack 𝓢 Layer Event World
      → Option (LayerStack 𝓢 Layer Event World)
      → Option (Done Layer Event World)
      → Type 0
  Ran s result none = result ≡ none
  Ran s result (some d) = (t : LayerStack 𝓢 Layer Event World) × (result ≡ some t) × Processed s t d

  -- From index `i` on the vector holds `es`.
  abbrev Remain : List Event → ℕ → List Event → Type 0
  Remain all i es = (j k : ℕ) → j < length es → i + j ≡ k → get_elem? all k ≡ get_elem? es j

  set-Remain :
      (all : List Event) (i : ℕ) (e e' : Event) (es : List Event)
      → length all ≡ i + suc (length es)
      → Remain all i (e ∷ es)
      → Remain (set all i e') (i + 1) es
  set-Remain all i e e' es n g j k l h =
      let other : (i == k) ≡ false = ground arith in
      get_elem?-set all i e' k (omega arith) ∙ rw other (g (suc j) k (omega arith) (omega arith))

  -- What follows the first event.
  next_lem :
      (s u : LayerStack 𝓢 Layer Event World) (r : Routed Layer Event World)
      (result : Option (LayerStack 𝓢 Layer Event World)) (rest : Option (Done Layer Event World))
      → 𝓢.content u.event_queue.pending ≡ 𝓢.content s.event_queue.pending ++ r.pushed
      → u.insert_index ≡ s.insert_index
      → Ran u result rest
      → Ran s result (rest >>= λ d. some (record d { pushed = r.pushed ++ d.pushed }))
  next_lem s u r result none waits same d = d
  next_lem s u r result (some d) waits same (v, run, done) = (
    v,
    run,
    record {
      content = done.content;
      shared = done.shared;
      pending =
          done.pending
          ∙ ap (λ c. c ++ d.pushed) waits
          ∙ append_assoc (𝓢.content s.event_queue.pending) r.pushed d.pushed;
      index = done.index ∙ same;
    },
  )

  deliver_events-Ran :
      (es : List Event) (i : ℕ) (ts : List Layer) (s : LayerStack 𝓢 Layer Event World)
      → 𝓢.content s.layers ≡ top_down ts
      → 𝓢.size s.event_queue.frozen ≡ i + length es
      → Remain (𝓢.content s.event_queue.frozen) i es
      → Ran s (deliver_events 𝓢 𝓜 i (length es) s) (route_all 𝓜 es ts s.shared)
  unfolding deliver_events route_all
  deliver_events-Ran [] i ts s h n g =
      (s, refl, record { content = h; shared = refl; pending = sym (append_nil _); index = refl })
  deliver_events-Ran (e ∷ es) i ts s h n g =
      let here : 𝓢.at s.event_queue.frozen i ≡ some e =
        𝓢.at-content s.event_queue.frozen i ∙ g 0 i (omega arith) (omega arith) in
      let all : 𝓢.size s.layers ≡ length ts =
        omega (arith, 𝓢.size-content s.layers, ap length h, length-put_below ts []) in
      let d = deliver_from-Delivered ts [] s e h in
      elim (Option-cases (route 𝓜 ts e s.shared)) [
        | inl fault ↦
            let stopped : deliver_from 𝓢 𝓜 (length ts) s e ≡ none = rw fault at d in
            rw (here, all, stopped, fault) refl
        | inr (r, routed) ↦
            let (t, run, through) =
              subst (Delivered s [] (deliver_from 𝓢 𝓜 (length ts) s e)) routed d in
            let frozen = 𝓢.store t.event_queue.frozen i r.event in
            let queue = t.event_queue in
            let u = record t { event_queue = record queue { frozen = frozen } } in
            let size_t : 𝓢.size t.event_queue.frozen ≡ i + suc (length es) =
              ap 𝓢.size through.frozen ∙ n in
            let stored : 𝓢.content frozen ≡ set (𝓢.content s.event_queue.frozen) i r.event =
              𝓢.content-store t.event_queue.frozen i r.event (omega arith)
              ∙ ap (λ f. set (𝓢.content f) i r.event) through.frozen in
            let size_s : length (𝓢.content s.event_queue.frozen) ≡ i + suc (length es) =
              sym (𝓢.size-content s.event_queue.frozen) ∙ n in
            let size_u : 𝓢.size frozen ≡ i + 1 + length es = omega (
              arith,
              𝓢.size-content frozen,
              ap length stored,
              length-set (𝓢.content s.event_queue.frozen) i r.event,
            ) in
            let remain : Remain (𝓢.content frozen) (i + 1) es =
              subst (λ c. Remain c (i + 1) es) (sym stored)
                (set-Remain _ i e r.event es size_s g) in
            let more = deliver_events-Ran es (i + 1) r.layers u through.content size_u remain in
            let more' : Ran u (deliver_events 𝓢 𝓜 (i + 1) (length es) u)
                (route_all 𝓜 es r.layers r.shared) =
              subst
                (λ c. Ran u (deliver_events 𝓢 𝓜 (i + 1) (length es) u) (route_all 𝓜 es r.layers c))
                through.shared more in
            rw (here, all, run, routed) (next_lem s u r _ _ through.pending through.index more')
      ]

  -- The stack faults where the routing does, and otherwise has its layers, keeps what was pushed for
  -- the next call, and no event is left.
  abbrev pub Handed :
      LayerStack 𝓢 Layer Event World
      → Option (LayerStack 𝓢 Layer Event World)
      → Option (Done Layer Event World)
      → Type 0
  Handed s result none = result ≡ none
  Handed s result (some d) =
      (t : LayerStack 𝓢 Layer Event World) × (result ≡ some t)
      × (top_down (𝓢.content t.layers) ≡ d.layers)
      × (t.shared ≡ d.shared)
      × (𝓢.content t.event_queue.pending ≡ d.pushed)
      × (𝓢.content t.event_queue.frozen ≡ [])
      × (t.insert_index ≡ s.insert_index)

  clear_lem :
      (s u : LayerStack 𝓢 Layer Event World) (result : Option (LayerStack 𝓢 Layer Event World))
      (done : Option (Done Layer Event World))
      → 𝓢.content u.event_queue.pending ≡ []
      → u.insert_index ≡ s.insert_index
      → Ran u result done
      → Handed s (result >>= λ t. some (record t { event_queue = clear 𝓢 t.event_queue })) done
  clear_lem s u result none empty same stopped = rw stopped refl
  clear_lem s u result (some d) empty same (t, run, p) = rw run (
    record t { event_queue = clear 𝓢 t.event_queue },
    refl,
    ap top_down p.content ∙ top_down_twice _,
    p.shared,
    p.pending ∙ ap (λ c. c ++ d.pushed) empty,
    𝓢.content-clear t.event_queue.frozen,
    p.index ∙ same,
  )

  -- When no event is left from before, `process_events` faults exactly where a layer does that gets an
  -- event. Otherwise it hands each waiting event, in the order of the pushes, from the top layer down
  -- until a layer leaves it handled, and then exactly the events that layers pushed meanwhile wait, in
  -- their order, for the next call.
  pub process_events-route_all :
      (s : LayerStack 𝓢 Layer Event World)
      → 𝓢.content s.event_queue.frozen ≡ []
      → Handed s
          (process_events 𝓢 𝓜 s)
          (route_all 𝓜 (𝓢.content s.event_queue.pending) (top_down (𝓢.content s.layers)) s.shared)
  unfolding process_events
  process_events-route_all s empty =
      let es = 𝓢.content s.event_queue.pending in
      let ts = top_down (𝓢.content s.layers) in
      let u = record s { event_queue = freeze 𝓢 s.event_queue } in
      let n : 𝓢.size s.event_queue.pending ≡ 0 + length es =
        omega (arith, 𝓢.size-content s.event_queue.pending) in
      let m : 𝓢.size s.event_queue.pending ≡ length es = 𝓢.size-content s.event_queue.pending in
      rw m (
        clear_lem s u _ _ empty refl (
          deliver_events-Ran es 0 ts u (sym (top_down_twice (𝓢.content s.layers))) n
            (λ j k l e. ap (get_elem? es) (omega arith))))
