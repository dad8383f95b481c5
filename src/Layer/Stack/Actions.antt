-- ===== src/Layer/Stack/Actions.antt =====
-- `LayerStack::on_actions`: what actions do to the camera, and who is offered them.
pub mod Steer
pub mod Offer
use hyprie.Base.{
  ℕ, zero, suc, ◌+◌, ◌≡◌, Bool, true, false, Option, none, some, List, [], ◌∷◌, ◌++◌, if◌then◌else◌,
  ◌>>=◌, Sequence, length, refl, ap, ap₂, sym, ◌∙◌, arith, Bool-cases,
}
use hyprie.Input.Action.{
  ActionKind, orbit, pan, dolly, move, camera_mode_toggle, ActionPayload, orbit_action, pan_action,
  dolly_action, move_action, Action,
}
use hyprie.Scene.CameraController.{Mode, fly, iso, CameraController}
use hyprie.Layer.Stack.{Shared, Called, Methods, LayerStack, call_at}

abbrev pub toggle : Mode → Mode
toggle iso = fly
toggle fly = iso

module _ {F : Type 0} (plus : F → F → F) where
  -- The case of an action. `none` is the exception of a `std::get` of another alternative; the flag
  -- says whether the action is consumed.
  abbrev pub apply_payload :
      CameraController F → ActionKind → ActionPayload F → Option (CameraController F × Bool)
  apply_payload c orbit (orbit_action dx dy) =
      let d = c.delta in
      some (
        record c { delta = record d { orbit_x = plus d.orbit_x dx; orbit_y = plus d.orbit_y dy } },
        true,
      )
  apply_payload c orbit _ = none
  apply_payload c pan (pan_action dx dy) =
      let d = c.delta in
      some
        (record c { delta = record d { pan_x = plus d.pan_x dx; pan_y = plus d.pan_y dy } }, true)
  apply_payload c pan _ = none
  apply_payload c dolly (dolly_action amount) =
      let d = c.delta in some (record c { delta = record d { dolly = plus d.dolly amount } }, true)
  apply_payload c dolly _ = none
  apply_payload c move (move_action forward right up) =
      let d = c.delta in
      some (
        record c { delta = record d { move_forward = forward; move_right = right; move_up = up } },
        true,
      )
  apply_payload c move _ = none
  apply_payload c camera_mode_toggle _ = some (record c { mode = toggle c.mode }, true)
  apply_payload c _ _ = some (c, false)

  -- The loop over the actions, with `action_consumed`.
  unfoldable pub apply_actions :
      CameraController F → Bool → List (Action F) → Option (CameraController F × Bool)
  apply_actions c consumed [] = some (c, consumed)
  apply_actions c consumed (a ∷ rest) = apply_payload c a.kind a.payload >>= λ r.
      apply_actions r.0 (if r.1 then true else consumed) rest

module _ (𝓢 : Sequence) {Layer Event World F : Type 0} (𝓜 : Methods Layer Event World F) where
  -- The loop over the layers, from the layer below index `n` down.
  unfoldable pub offer_actions_from :
      ℕ
      → LayerStack 𝓢 Layer Event World
      → List (Action F)
      → Option (LayerStack 𝓢 Layer Event World × Bool)
  offer_actions_from zero s actions = some (s, false)
  offer_actions_from (suc i) s actions = do
    layer ← 𝓢.at s.layers i
    p ← 𝓜.on_actions layer actions s.shared
    if p.1
        then some (call_at 𝓢 𝓜 s i p.0, true)
        else offer_actions_from i (call_at 𝓢 𝓜 s i p.0) actions

  -- The camera's controller is a field of the stack.
  unfoldable pub on_actions :
      (F → F → F)
      → LayerStack 𝓢 Layer Event World
      → CameraController F
      → List (Action F)
      → Option (LayerStack 𝓢 Layer Event World × CameraController F × Bool)
  on_actions plus s c actions = apply_actions plus c false actions >>= λ steered.
      offer_actions_from (𝓢.size s.layers) s actions >>= λ offered.
      some (offered.0, steered.0, if offered.1 then true else steered.1)
