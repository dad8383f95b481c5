-- ===== src/Layer/Stack.antt =====
-- `LayerStack` of hpr/layer/layer_stack.hpp, over arbitrary layers.
pub mod Order
pub mod TopDown
pub mod Actions
pub mod Events
pub mod Refine
pub mod Transitions
use hyprie.Base.{
  ℕ, zero, suc, ◌+◌, ◌-◌, Bool, true, false, ◌||◌, Option, none, some, List, [], ◌∷◌, ◌==◌, ltb,
  if◌then◌else◌, ◌>>=◌, ◌>>◌, Sequence,
}
use hyprie.Event.EventQueue.{EventQueue, push, push_all, freeze, clear}
use hyprie.Event.CommandStream.{CmdStream, Reader, begin}
use hyprie.Event.CommandStream
use hyprie.Input.Action.{Action}

-- What the layers share and can change in a call: the stream of commands, and whatever else.
pub record Shared (World : Type 0) : Type 0 where
  pub cmd_stream : CmdStream
  pub world : World

-- What a call of a virtual method leaves, and the events that it pushed.
pub record Called (Layer Event World : Type 0) : Type 0 where
  pub layer : Layer
  pub shared : Shared World
  pub pushed : List Event

-- The classes derived from `Layer` (hpr/layer/layer.hpp) and `Event` (hpr/event/event.hpp).
-- `address` tells layers apart; `set_event_queue` and `set_command_stream` change nothing in a layer
-- that is no emitter. `on_event` gives the event back, `on_actions` whether the layer consumes the
-- actions. A virtual call that faults, as one through a queue that was never set, gives `none`.
pub record Methods (Layer Event World F : Type 0) : Type 0 where
  pub address : Layer → ℕ
  pub handled : Event → Bool
  pub set_event_queue : Layer → Layer
  pub set_command_stream : Layer → Layer
  pub on_attach : Layer → Shared World → Option (Called Layer Event World)
  pub on_detach : Layer → Shared World → Option (Called Layer Event World)
  pub on_event : Layer → Event → Shared World → Option (Called Layer Event World × Event)
  pub on_actions : Layer → List (Action F) → Shared World → Option (Called Layer Event World × Bool)
  pub on_update : Layer → F → Shared World → Option (Called Layer Event World)
  pub on_submit : Layer → ℕ → Shared World → Option (Called Layer Event World)
  pub process_commands : Layer → Reader → Shared World → Option (Called Layer Event World)
  pub take_transition : Layer → Option Layer × Layer

module _ (𝓢 : Sequence) (Layer Event World : Type 0) where
  pub record LayerStack : Type 0 where
    pub layers : 𝓢.Vec Layer
    pub insert_index : ℕ
    pub event_queue : EventQueue 𝓢 Event
    pub shared : Shared World

module _ (𝓢 : Sequence) {Layer Event World F : Type 0} (𝓜 : Methods Layer Event World F) where
  -- The state behind a call of a method of the layer at index `i`.
  abbrev pub call_at :
      LayerStack 𝓢 Layer Event World → ℕ → Called Layer Event World → LayerStack 𝓢 Layer Event World
  call_at s i called = record s {
    layers = 𝓢.store s.layers i called.layer;
    event_queue = push_all 𝓢 s.event_queue called.pushed;
    shared = called.shared;
  }

  -- The state behind a call of a method of a layer that is not in the stack.
  abbrev pub call_outside :
      LayerStack 𝓢 Layer Event World → Called Layer Event World → LayerStack 𝓢 Layer Event World
  call_outside s called = record s {
    event_queue = push_all 𝓢 s.event_queue called.pushed;
    shared = called.shared;
  }

  -- The layer is `none` for `nullptr`. A result `none` is a fault, of a call of a layer or an access
  -- out of range, here and below.
  unfoldable pub push_layer :
      LayerStack 𝓢 Layer Event World → Option Layer → Option (LayerStack 𝓢 Layer Event World)
  push_layer s none = some s
  push_layer s (some layer) = 𝓜.on_attach (𝓜.set_event_queue layer) s.shared >>= λ called.
      some (record (call_outside s called) {
        layers = 𝓢.emplace s.layers s.insert_index called.layer;
        insert_index = s.insert_index + 1;
      })

  unfoldable pub push_overlay :
      LayerStack 𝓢 Layer Event World → Option Layer → Option (LayerStack 𝓢 Layer Event World)
  push_overlay s none = some s
  push_overlay s (some overlay) =
      𝓜.on_attach (𝓜.set_command_stream (𝓜.set_event_queue overlay)) s.shared >>= λ called.
      some (record (call_outside s called) { layers = 𝓢.push_back s.layers called.layer })

  -- `std::find_if`, over `n` layers from index `i` on; the result `some none` is the end.
  unfoldable pub find_layer : 𝓢.Vec Layer → ℕ → ℕ → ℕ → Option (Option ℕ)
  find_layer layers target i zero = some none
  find_layer layers target i (suc n) = 𝓢.at layers i >>= λ layer.
      if 𝓜.address layer == target then some (some i) else find_layer layers target (i + 1) n

  -- `(*it)->on_detach()` and `m_layers.erase(it)`.
  unfoldable pub detach_at :
      LayerStack 𝓢 Layer Event World → ℕ → Option (LayerStack 𝓢 Layer Event World)
  detach_at s i = do
    layer ← 𝓢.at s.layers i
    called ← 𝓜.on_detach layer s.shared
    some (record (call_outside s called) { layers = 𝓢.erase s.layers i })

  unfoldable pub pop_layer :
      LayerStack 𝓢 Layer Event World → Option ℕ → Option (LayerStack 𝓢 Layer Event World)
  pop_layer s none = some s
  pop_layer s (some layer) = find_layer s.layers layer 0 s.insert_index >>= λ found. elim found [
    | none ↦ some s
    | some i ↦ detach_at s i >>= λ t. some (record t { insert_index = t.insert_index - 1 })
  ]

  unfoldable pub pop_overlay :
      LayerStack 𝓢 Layer Event World → Option ℕ → Option (LayerStack 𝓢 Layer Event World)
  pop_overlay s none = some s
  pop_overlay s (some overlay) =
      find_layer s.layers overlay s.insert_index (𝓢.size s.layers - s.insert_index) >>= λ found.
      elim found [ none ↦ some s | some i ↦ detach_at s i ]

  abbrev pub enqueue_event : LayerStack 𝓢 Layer Event World → Event → LayerStack 𝓢 Layer Event World
  enqueue_event s event = record s { event_queue = push 𝓢 s.event_queue event }

  -- The loop of `on_event`, from the layer below index `n` down.
  unfoldable pub offer_from :
      ℕ → LayerStack 𝓢 Layer Event World → Event → Option (LayerStack 𝓢 Layer Event World × Event)
  offer_from zero s event = some (s, event)
  offer_from (suc i) s event = do
    layer ← 𝓢.at s.layers i
    p ← 𝓜.on_event layer event s.shared
    offer_from i (call_at s i p.0) p.1

  unfoldable pub on_event :
      LayerStack 𝓢 Layer Event World → Event → Option (LayerStack 𝓢 Layer Event World × Bool)
  on_event s event =
      offer_from (𝓢.size s.layers) s event >>= λ result. some (result.0, 𝓜.handled result.1)

  -- The inner loop of `process_events`, from the layer below index `n` down.
  unfoldable pub deliver_from :
      ℕ → LayerStack 𝓢 Layer Event World → Event → Option (LayerStack 𝓢 Layer Event World × Event)
  deliver_from zero s event = some (s, event)
  deliver_from (suc i) s event = do
    layer ← 𝓢.at s.layers i
    p ← 𝓜.on_event layer event s.shared
    if 𝓜.handled p.1 then some (call_at s i p.0, p.1) else deliver_from i (call_at s i p.0) p.1

  -- The outer loop, for `n` events from index `i` on; a layer pushes to the other vector.
  unfoldable pub deliver_events :
      ℕ → ℕ → LayerStack 𝓢 Layer Event World → Option (LayerStack 𝓢 Layer Event World)
  deliver_events i zero s = some s
  deliver_events i (suc n) s = do
    event ← 𝓢.at s.event_queue.frozen i
    result ← deliver_from (𝓢.size s.layers) s event
    let t = result.0
    let queue = t.event_queue
    deliver_events (i + 1) n
        (record t { event_queue = record queue { frozen = 𝓢.store queue.frozen i result.1 } })

  unfoldable pub process_events :
      LayerStack 𝓢 Layer Event World → Option (LayerStack 𝓢 Layer Event World)
  process_events s =
      let t = record s { event_queue = freeze 𝓢 s.event_queue } in
      deliver_events 0 (𝓢.size t.event_queue.frozen) t >>= λ u.
      some (record u { event_queue = clear 𝓢 u.event_queue })

  -- With the assertion of `Reader::begin`.
  unfoldable pub process_commands :
      LayerStack 𝓢 Layer Event World → Option (LayerStack 𝓢 Layer Event World)
  process_commands s = if s.insert_index == 0 then some s else (do
    scene ← 𝓢.at s.layers (s.insert_index - 1)
    reader ← begin s.shared.cmd_stream
    called ← 𝓜.process_commands scene reader s.shared
    let t = call_at s (s.insert_index - 1) called
    let shared = t.shared
    some (record t {
      shared = record shared { cmd_stream = CommandStream.reset shared.cmd_stream };
    }))

  -- The loop of `apply_pending_transitions`, for `n` layers from index `i` on.
  unfoldable pub transit_from :
      ℕ → ℕ → LayerStack 𝓢 Layer Event World → Option (LayerStack 𝓢 Layer Event World)
  transit_from i zero s = some s
  transit_from i (suc n) s = 𝓢.at s.layers i >>= λ layer.
      let (next, left) = 𝓜.take_transition layer in
      elim next [
        | none ↦ transit_from (i + 1) n (record s { layers = 𝓢.store s.layers i left })
        | some layer' ↦ (do
          gone ← 𝓜.on_detach left s.shared
          let detached = call_outside s gone
          come ← 𝓜.on_attach layer' detached.shared
          transit_from (i + 1) n (call_at detached i come))
      ]

  unfoldable pub apply_pending_transitions :
      LayerStack 𝓢 Layer Event World → Option (LayerStack 𝓢 Layer Event World)
  apply_pending_transitions s = transit_from 0 (𝓢.size s.layers) s

  -- The loop of `on_update` over the layers, from the layer below index `n` down.
  unfoldable pub update_from :
      ℕ → LayerStack 𝓢 Layer Event World → F → Option (LayerStack 𝓢 Layer Event World)
  update_from zero s delta_time = some s
  update_from (suc i) s delta_time = do
    layer ← 𝓢.at s.layers i
    called ← 𝓜.on_update layer delta_time s.shared
    update_from i (call_at s i called) delta_time

  -- What `on_update` does with the layers, behind the update of the camera and of the transforms.
  unfoldable pub update_layers :
      LayerStack 𝓢 Layer Event World → F → Option (LayerStack 𝓢 Layer Event World)
  update_layers s delta_time = do
    t ← update_from (𝓢.size s.layers) s delta_time
    u ← process_commands t
    v ← process_events u
    apply_pending_transitions v

  -- The loop of `on_submit`, for `n` layers from index `i` on.
  unfoldable pub submit_from :
      ℕ → ℕ → LayerStack 𝓢 Layer Event World → Option (LayerStack 𝓢 Layer Event World)
  submit_from i zero s = some s
  submit_from i (suc n) s = do
    layer ← 𝓢.at s.layers i
    called ← 𝓜.on_submit layer i s.shared
    submit_from (i + 1) n (call_at s i called)

  unfoldable pub on_submit :
      LayerStack 𝓢 Layer Event World → Option (LayerStack 𝓢 Layer Event World)
  on_submit s = submit_from 0 (𝓢.size s.layers) s
