-- ===== src/Layer/Stack/Order.antt =====
-- The order of layers and overlays.
use hyprie.Base.{
  ◌>>=◌, append_nil, snoc-append, ℕ, ◌≡◌, Option, none, some, List, [], ◌∷◌, ◌++◌, ◌==◌,
  if◌then◌else◌, Sequence, snoc, length, refl, ap, sym, ◌∙◌,
}
use hyprie.Event.EventQueue.{EventQueue, push, push_all}
use hyprie.Layer.Stack.{
  Shared, Methods, LayerStack, push_layer, push_overlay, pop_layer, pop_overlay, enqueue_event,
}

module _ (𝓢 : Sequence) {Event : Type 0} where
  -- What a call pushes stands behind the events that wait.
  pub push_all-pending :
      (q : EventQueue 𝓢 Event) (events : List Event)
      → (𝓢.content (push_all 𝓢 q events).pending ≡ 𝓢.content q.pending ++ events)
        × ((push_all 𝓢 q events).frozen ≡ q.frozen)
  unfolding push_all
  push_all-pending q [] = (sym (append_nil _), refl)
  push_all-pending q (event ∷ events) =
      let (h, k) = push_all-pending (push 𝓢 q event) events in
      (
        h
            ∙ ap (λ l. l ++ events) (𝓢.content-push_back q.pending event)
            ∙ snoc-append (𝓢.content q.pending) event events,
        k,
      )

-- The contract: two lists, from the bottom up, and the events that wait.
pub record Order (Layer Event World : Type 0) : Type 0 where
  pub layers : List Layer
  pub overlays : List Layer
  pub events : List Event
  pub shared : Shared World

-- The calls that change the order, and the one that enqueues an event.
pub data Call (Layer Event : Type 0) : Type 0 where
  call_push_layer : Option Layer → Call Layer Event
  call_push_overlay : Option Layer → Call Layer Event
  call_pop_layer : Option ℕ → Call Layer Event
  call_pop_overlay : Option ℕ → Call Layer Event
  call_enqueue : Event → Call Layer Event

module _ {Layer Event World F : Type 0} (𝓜 : Methods Layer Event World F) where
  -- The first layer of a list with an address, and the others.
  unfoldable pub remove_first : ℕ → List Layer → Option (Layer × List Layer)
  remove_first target [] = none
  remove_first target (x ∷ xs) =
      if 𝓜.address x == target
      then some (x, xs)
      else elim (remove_first target xs) [ none ↦ none | some r ↦ some (r.0, x ∷ r.1) ]

  abbrev pub without_layer :
      Order Layer Event World → Option (Layer × List Layer) → Option (Order Layer Event World)
  without_layer o none = some o
  without_layer o (some (layer, rest)) = 𝓜.on_detach layer o.shared >>= λ called.
      some (record o { layers = rest; events = o.events ++ called.pushed; shared = called.shared })

  abbrev pub without_overlay :
      Order Layer Event World → Option (Layer × List Layer) → Option (Order Layer Event World)
  without_overlay o none = some o
  without_overlay o (some (overlay, rest)) = 𝓜.on_detach overlay o.shared >>= λ called.
      some
        (record o { overlays = rest; events = o.events ++ called.pushed; shared = called.shared })

  -- What a call does to the lists; `none` where the layer faults.
  abbrev pub ordered : Order Layer Event World → Call Layer Event → Option (Order Layer Event World)
  ordered o (call_push_layer none) = some o
  ordered o (call_push_layer (some layer)) =
      𝓜.on_attach (𝓜.set_event_queue layer) o.shared >>= λ called. some (record o {
        layers = snoc o.layers called.layer;
        events = o.events ++ called.pushed;
        shared = called.shared;
      })
  ordered o (call_push_overlay none) = some o
  ordered o (call_push_overlay (some overlay)) =
      𝓜.on_attach (𝓜.set_command_stream (𝓜.set_event_queue overlay)) o.shared >>= λ called.
      some (record o {
        overlays = snoc o.overlays called.layer;
        events = o.events ++ called.pushed;
        shared = called.shared;
      })
  ordered o (call_pop_layer none) = some o
  ordered o (call_pop_layer (some layer)) = without_layer o (remove_first layer o.layers)
  ordered o (call_pop_overlay none) = some o
  ordered o (call_pop_overlay (some overlay)) = without_overlay o (remove_first overlay o.overlays)
  ordered o (call_enqueue event) = some (record o { events = snoc o.events event })

module _ (𝓢 : Sequence) {Layer Event World F : Type 0} (𝓜 : Methods Layer Event World F) where
  abbrev pub execute :
      LayerStack 𝓢 Layer Event World → Call Layer Event → Option (LayerStack 𝓢 Layer Event World)
  execute s (call_push_layer layer) = push_layer 𝓢 𝓜 s layer
  execute s (call_push_overlay overlay) = push_overlay 𝓢 𝓜 s overlay
  execute s (call_pop_layer layer) = pop_layer 𝓢 𝓜 s layer
  execute s (call_pop_overlay overlay) = pop_overlay 𝓢 𝓜 s overlay
  execute s (call_enqueue event) = some (enqueue_event 𝓢 𝓜 s event)

-- The vector holds the layers and then the overlays, and the index is between them.
pub record Implements (𝓢 : Sequence) {Layer Event World : Type 0}
    (s : LayerStack 𝓢 Layer Event World) (o : Order Layer Event World) : Type 0 where
  pub content : 𝓢.content s.layers ≡ o.layers ++ o.overlays
  pub index : s.insert_index ≡ length o.layers
  pub pending : 𝓢.content s.event_queue.pending ≡ o.events
  pub shared : s.shared ≡ o.shared

-- The stack faults where the lists do, and otherwise implements them.
abbrev pub Agree :
    (𝓢 : Sequence) {Layer Event World : Type 0}
    → Option (LayerStack 𝓢 Layer Event World)
    → Option (Order Layer Event World)
    → Type 0
Agree 𝓢 result none = result ≡ none
Agree 𝓢 {Layer} {Event} {World} result (some o) =
    (t : LayerStack 𝓢 Layer Event World) × (result ≡ some t) × Implements 𝓢 t o
