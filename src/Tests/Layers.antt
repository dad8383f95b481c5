-- ===== src/Tests/Layers.antt =====
-- A stack of layers that count events.
use hyprie.Base.{
  List, true, ℕ, ◌+◌, ◌≡◌, false, none, some, [], ◌∷◌, ◌==◌, if◌then◌else◌, list_sequence, refl,
}
use hyprie.Event.EventQueue.{push_all}
use hyprie.Layer.Stack.{
  Shared, Methods, LayerStack, deliver_from, deliver_events, process_events, transit_from,
  apply_pending_transitions,
}
use hyprie.Layer.Stack.Order.{Order, call_pop_overlay, ordered, execute, Agree}
use hyprie.Layer.Stack.Refine.{execute-Implements}
use hyprie.Input.Action.{orbit, orbit_action, snap_on, snap_on_action, Action}
use hyprie.Scene.CameraController.{iso, CameraController}
use hyprie.Layer.Stack.Actions.{apply_actions, offer_actions_from, on_actions}
use hyprie.Layer.Stack.Actions.Offer.{offer, Steered, on_actions-offer}
use hyprie.Layer.Stack.TopDown.{top_down}
use hyprie.Layer.Stack.Transitions.{replace, Replaced, apply_pending_transitions-replace}
use hyprie.Layer.Stack.Events.{route_all, Handed, process_events-route_all}

-- A layer is its address and the number of events it got; an event is a number, and 0 is handled.
-- A layer takes 1 from an event and pushes the event 9 when it handles one,
-- and faults on the event 7.
abbrev pub counting : Methods (ℕ × ℕ) ℕ ℕ ℕ
counting = record {
  address = λ l. l.0;
  handled = λ e. e == 0;
  set_event_queue = λ l. l;
  set_command_stream = λ l. l;
  on_attach = λ l s. some (record { layer = l; shared = s; pushed = [] });
  on_detach = λ l s. some (record { layer = l; shared = s; pushed = 5 ∷ [] });
  on_event = λ l e s.
      if e == 7
      then none
      else some (
        record { layer = (l.0, l.1 + 1); shared = s; pushed = if e == 1 then 9 ∷ [] else [] },
        if e == 1 then 0 else 1,
      );
  on_actions = λ l a s. some (record { layer = l; shared = s; pushed = [] }, false);
  on_update = λ l d s. some (record { layer = l; shared = s; pushed = [] });
  on_submit = λ l i s. some (record { layer = l; shared = s; pushed = [] });
  process_commands = λ l r s. some (record { layer = l; shared = s; pushed = [] });
  take_transition = λ l. (none, l);
}

abbrev around : Shared ℕ
around = record { cmd_stream = record { data_bytes = none; capacity = 0; size = 0 }; world = 0 }

-- Layer 1 below the overlays 2 and 3, and two events that wait.
abbrev three_layers : LayerStack list_sequence (ℕ × ℕ) ℕ ℕ
three_layers = record {
  layers = (1, 0) ∷ (2, 0) ∷ (3, 0) ∷ [];
  insert_index = 1;
  event_queue = record { pending = 2 ∷ 1 ∷ []; frozen = [] };
  shared = around;
}

abbrev two_lists : Order (ℕ × ℕ) ℕ ℕ
two_lists = record {
  layers = (1, 0) ∷ [];
  overlays = (2, 0) ∷ (3, 0) ∷ [];
  events = 2 ∷ 1 ∷ [];
  shared = around;
}

execute-Implements_example :
    Agree list_sequence
      (execute list_sequence counting three_layers (call_pop_overlay (some 3)))
      (ordered counting two_lists (call_pop_overlay (some 3)))
execute-Implements_example =
    execute-Implements list_sequence counting three_layers two_lists (call_pop_overlay (some 3))
      record { content = refl; index = refl; pending = refl; shared = refl }

process_events-route_all_example :
    Handed list_sequence counting three_layers
      (process_events list_sequence counting three_layers)
      (route_all counting (2 ∷ 1 ∷ []) (top_down three_layers.layers) around)
process_events-route_all_example = process_events-route_all list_sequence counting three_layers refl

-- The top layer gets both events, the next one only the first, which it handles.
three_layers-processed :
    process_events list_sequence counting three_layers
    ≡ some (record {
      layers = (1, 0) ∷ (2, 1) ∷ (3, 2) ∷ [];
      insert_index = 1;
      event_queue = record { pending = 9 ∷ 9 ∷ []; frozen = [] };
      shared = around;
    })
unfolding process_events deliver_events deliver_from push_all
three_layers-processed = refl

-- A layer that faults makes the call fault.
fault_processed :
    process_events list_sequence counting
      record three_layers { event_queue = record { pending = 2 ∷ 7 ∷ []; frozen = [] } }
    ≡ none
unfolding process_events deliver_events deliver_from push_all
fault_processed = refl

-- The overlay 2 consumes every list of actions, and so the layer below it is not offered any.
abbrev greedy : Methods (ℕ × ℕ) ℕ ℕ ℕ
greedy = record counting {
  on_actions = λ l a s. some (record { layer = (l.0, l.1 + 1); shared = s; pushed = [] }, l.0 == 2);
}

abbrev two_actions : List (Action ℕ)
two_actions =
    record { kind = orbit; payload = orbit_action 3 4 }
    ∷ record { kind = snap_on; payload = snap_on_action }
    ∷ []

abbrev still : CameraController ℕ
still = record {
  yaw = 0;
  pitch = 0;
  move_speed = 0;
  mouse_sens = 0;
  mode = iso;
  delta = record {
    orbit_x = 1;
    orbit_y = 1;
    pan_x = 0;
    pan_y = 0;
    dolly = 0;
    move_forward = 0;
    move_right = 0;
    move_up = 0;
  };
  iso_ortho_height = 0;
  iso_pitch = 0;
  iso_yaw = 0;
  iso_min_depth_span = 0;
  iso_depth_multiplier = 0;
}

abbrev add : ℕ → ℕ → ℕ
add a b = a + b

on_actions-offer_example :
    Steered list_sequence greedy add three_layers still two_actions
      (on_actions list_sequence greedy add three_layers still two_actions)
      (offer greedy (top_down three_layers.layers) two_actions around)
on_actions-offer_example =
    on_actions-offer list_sequence greedy add three_layers still two_actions refl

-- The camera turns, and the two top layers have been asked.
two_actions-offered :
    on_actions list_sequence greedy add three_layers still two_actions
    ≡ some (
      record three_layers { layers = (1, 0) ∷ (2, 1) ∷ (3, 1) ∷ [] },
      (let d = still.delta in record still { delta = record d { orbit_x = 4; orbit_y = 5 } }),
      true,
    )
unfolding on_actions apply_actions offer_actions_from push_all
two_actions-offered = refl

-- The overlay 2 has a transition to the overlay 7.
abbrev swapping : Methods (ℕ × ℕ) ℕ ℕ ℕ
swapping = record counting {
  take_transition = λ l. if l.0 == 2 then (some (7, 0), l) else (none, l);
}

apply_pending_transitions-replace_example :
    Replaced list_sequence swapping three_layers []
      (apply_pending_transitions list_sequence swapping three_layers)
      (replace swapping three_layers.layers around)
apply_pending_transitions-replace_example =
    apply_pending_transitions-replace list_sequence swapping three_layers

-- The overlay that goes away pushes the event 5.
three_layers-swapped :
    apply_pending_transitions list_sequence swapping three_layers
    ≡ some (record three_layers {
      layers = (1, 0) ∷ (7, 0) ∷ (3, 0) ∷ [];
      event_queue = record { pending = 2 ∷ 1 ∷ 5 ∷ []; frozen = [] };
    })
unfolding apply_pending_transitions transit_from push_all
three_layers-swapped = refl
