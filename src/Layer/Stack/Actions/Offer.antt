-- ===== src/Layer/Stack/Actions/Offer.antt =====
-- Who is offered the actions.
use hyprie.Base.{
  ◌>>=◌, Option, none, Option-cases, append_assoc, append_nil, ℕ, ◌≡◌, inl, inr, Bool, true, false,
  some, List, [], ◌∷◌, ◌++◌, if◌then◌else◌, Sequence, length, refl, ap, sym, ◌∙◌, arith, Bool-cases,
}
use hyprie.Input.Action.{Action}
use hyprie.Scene.CameraController.{CameraController}
use hyprie.Layer.Stack.{Called, Shared, Methods, LayerStack, call_at}
use hyprie.Layer.Stack.Order.{push_all-pending}
use hyprie.Layer.Stack.TopDown.{
  put_below, top_down, length-put_below, top_down_twice, at_top, store_top,
}
use hyprie.Layer.Stack.Actions.{offer_actions_from, on_actions}
use hyprie.Layer.Stack.Actions.Steer.{all_match, any_steers, steer, apply_actions-steer, flag_self}

pub record Offered (Layer Event World : Type 0) : Type 0 where
  pub layers : List Layer
  pub shared : Shared World
  pub pushed : List Event
  pub consumed : Bool

module _ {Layer Event World F : Type 0} (𝓜 : Methods Layer Event World F) where
  -- From the top down, until a layer consumes the actions; `none` where a layer faults.
  unfoldable pub offer :
      List Layer → List (Action F) → Shared World → Option (Offered Layer Event World)
  offer [] actions shared =
      some (record { layers = []; shared = shared; pushed = []; consumed = false })
  offer (l ∷ ls) actions shared = 𝓜.on_actions l actions shared >>= λ p.
      if p.1
      then some (record {
        layers = p.0.layer ∷ ls;
        shared = p.0.shared;
        pushed = p.0.pushed;
        consumed = true;
      })
      else (offer ls actions p.0.shared >>= λ rest.
          some
            (record rest { layers = p.0.layer ∷ rest.layers; pushed = p.0.pushed ++ rest.pushed }))

module _ (𝓢 : Sequence) {Layer Event World F : Type 0} (𝓜 : Methods Layer Event World F) where
  -- What becomes of a stack when actions have been offered to the layers below `above`.
  record Asked (s t : LayerStack 𝓢 Layer Event World) (above : List Layer)
      (r : Offered Layer Event World) : Type 0 where
    content : 𝓢.content t.layers ≡ put_below r.layers above
    shared : t.shared ≡ r.shared
    pending : 𝓢.content t.event_queue.pending ≡ 𝓢.content s.event_queue.pending ++ r.pushed

  abbrev Told :
      LayerStack 𝓢 Layer Event World
      → List Layer
      → Option (LayerStack 𝓢 Layer Event World × Bool)
      → Option (Offered Layer Event World)
      → Type 0
  Told s above result none = result ≡ none
  Told s above result (some r) =
      (t : LayerStack 𝓢 Layer Event World) × (result ≡ some (t, r.consumed)) × Asked s t above r

  -- What follows a call that does not consume the actions.
  below_lem :
      (s : LayerStack 𝓢 Layer Event World) (above : List Layer) (i : ℕ)
      (called : Called Layer Event World) (result : Option (LayerStack 𝓢 Layer Event World × Bool))
      (rest : Option (Offered Layer Event World))
      → Told (call_at 𝓢 𝓜 s i called) (called.layer ∷ above) result rest
      → Told s above result (
          rest >>= λ r.
          some (record r { layers = called.layer ∷ r.layers; pushed = called.pushed ++ r.pushed }))
  below_lem s above i called result none d = d
  below_lem s above i called result (some r) (t, run, asked) = (
    t,
    run,
    record {
      content = asked.content;
      shared = asked.shared;
      pending =
          asked.pending
          ∙ ap (λ c. c ++ r.pushed) (push_all-pending 𝓢 s.event_queue called.pushed).0
          ∙ append_assoc (𝓢.content s.event_queue.pending) called.pushed r.pushed;
    },
  )

  offer_actions_from-Told :
      (ts above : List Layer) (s : LayerStack 𝓢 Layer Event World) (actions : List (Action F))
      → 𝓢.content s.layers ≡ put_below ts above
      → Told s above (offer_actions_from 𝓢 𝓜 (length ts) s actions) (offer 𝓜 ts actions s.shared)
  unfolding offer_actions_from offer
  offer_actions_from-Told [] above s actions h =
      (s, refl, record { content = h; shared = refl; pending = sym (append_nil _) })
  offer_actions_from-Told (l ∷ ts) above s actions h =
      let here = at_top 𝓢 ts above s l h in
      elim (Option-cases (𝓜.on_actions l actions s.shared)) [
        | inl fault ↦ rw (here, fault) refl
        | inr (p, call) ↦
            let stored = store_top 𝓢 ts above s l p.0.layer h in
            let next = call_at 𝓢 𝓜 s (length ts) p.0 in
            elim (Bool-cases p.1) [
              | inl over ↦
                  rw (here, call, over)
                    (
                      next,
                      refl,
                      record {
                        content = stored;
                        shared = refl;
                        pending = (push_all-pending 𝓢 s.event_queue p.0.pushed).0;
                      },
                    )
              | inr refused ↦
                  rw (here, call, refused)
                    (below_lem s above (length ts) p.0 _ _
                      (offer_actions_from-Told ts (p.0.layer ∷ above) next actions stored))
            ]
      ]

  -- The stack faults where a layer does, and otherwise has the layers, the camera and the result.
  abbrev pub Steered :
      (F → F → F)
      → LayerStack 𝓢 Layer Event World
      → CameraController F
      → List (Action F)
      → Option (LayerStack 𝓢 Layer Event World × CameraController F × Bool)
      → Option (Offered Layer Event World)
      → Type 0
  Steered plus s c actions result none = result ≡ none
  Steered plus s c actions result (some r) =
      (t : LayerStack 𝓢 Layer Event World) × (result
        ≡ some (t, steer plus c actions, if r.consumed then true else any_steers actions))
      × (top_down (𝓢.content t.layers) ≡ r.layers)
      × (t.shared ≡ r.shared)
      × (𝓢.content t.event_queue.pending ≡ 𝓢.content s.event_queue.pending ++ r.pushed)

  camera_lem :
      (plus : F → F → F) (s : LayerStack 𝓢 Layer Event World) (c : CameraController F)
      (actions : List (Action F)) (offered : Option (LayerStack 𝓢 Layer Event World × Bool))
      (r : Option (Offered Layer Event World))
      → Told s [] offered r
      → Steered plus s c actions
          (offered >>= λ o. some (
            o.0,
            steer plus c actions,
            if o.1 then true else if any_steers actions then true else false,
          ))
          r
  camera_lem plus s c actions offered none told = rw told refl
  camera_lem plus s c actions offered (some r) (t, run, asked) =
      rw (run, flag_self (any_steers actions))
        (t, refl, ap top_down asked.content ∙ top_down_twice _, asked.shared, asked.pending)

  -- For actions with the payloads of their kinds, `on_actions` faults exactly where a layer does that
  -- is offered them. Otherwise every field of the camera's controller takes in the actions of its
  -- kind, in order; the layers are offered the actions from the top down until one consumes them; and
  -- the result is true exactly if a layer consumes them or one of them is for the camera.
  pub on_actions-offer :
      (plus : F → F → F) (s : LayerStack 𝓢 Layer Event World) (c : CameraController F)
      (actions : List (Action F))
      → all_match actions ≡ true
      → Steered plus s c actions
          (on_actions 𝓢 𝓜 plus s c actions)
          (offer 𝓜 (top_down (𝓢.content s.layers)) actions s.shared)
  unfolding on_actions
  on_actions-offer plus s c actions e =
      let ts = top_down (𝓢.content s.layers) in
      let all : 𝓢.size s.layers ≡ length ts = omega (
        arith,
        𝓢.size-content s.layers,
        ap length (top_down_twice (𝓢.content s.layers)),
        length-put_below ts [],
      ) in
      let told =
        offer_actions_from-Told ts [] s actions (sym (top_down_twice (𝓢.content s.layers))) in
      rw (apply_actions-steer plus actions c false e, all) (camera_lem plus s c actions _ _ told)
