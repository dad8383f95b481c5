-- ===== src/Event/EventQueue.antt =====
-- `EventQueue` of hpr/event/event_queue.hpp.
use hyprie.Base.{Sequence, List, [], ◌∷◌}

module _ (𝓢 : Sequence) (Event : Type 0) where
  pub record EventQueue : Type 0 where
    pub pending : 𝓢.Vec Event
    pub frozen : 𝓢.Vec Event

module _ (𝓢 : Sequence) {Event : Type 0} where
  abbrev pub init : EventQueue 𝓢 Event
  init = record { pending = 𝓢.empty; frozen = 𝓢.empty }

  abbrev pub push : EventQueue 𝓢 Event → Event → EventQueue 𝓢 Event
  push q event = record q { pending = 𝓢.push_back q.pending event }

  abbrev pub freeze : EventQueue 𝓢 Event → EventQueue 𝓢 Event
  freeze q = record { pending = q.frozen; frozen = q.pending }

  abbrev pub clear : EventQueue 𝓢 Event → EventQueue 𝓢 Event
  clear q = record q { frozen = 𝓢.clear q.frozen }

  -- What a call of a layer pushes, in order.
  unfoldable pub push_all : EventQueue 𝓢 Event → List Event → EventQueue 𝓢 Event
  push_all q [] = q
  push_all q (event ∷ events) = push_all (push q event) events
