-- ===== src/Layer/Stack/Actions/Steer.antt =====
-- What a list of actions does to the camera, field by field.
use hyprie.Base.{◌≡◌, Bool, true, false, some, List, [], ◌∷◌, if◌then◌else◌, refl, ap, ◌∙◌, arith}
use hyprie.Input.Action.{
  ActionKind, orbit, pan, dolly, move, camera_mode_toggle, ActionPayload, orbit_action, pan_action,
  dolly_action, move_action, Action,
}
use hyprie.Scene.CameraController.{Mode, CameraController}
use hyprie.Layer.Stack.Actions.{toggle, apply_payload, apply_actions}

-- The kinds that the stack itself consumes.
abbrev pub steers : ActionKind → Bool
steers orbit = true
steers pan = true
steers dolly = true
steers move = true
steers camera_mode_toggle = true
steers _ = false

flags :
    (later here before : Bool)
    → (if later then true else if here then true else before)
      ≡ (if if here then true else later then true else before)
flags true true before = refl
flags true false before = refl
flags false true before = refl
flags false false before = refl

pub flag_self : (b : Bool) → (if b then true else false) ≡ b
flag_self true = refl
flag_self false = refl

module _ {F : Type 0} where
  -- Whether the payload is the one that is read for the kind.
  abbrev pub matches : ActionKind → ActionPayload F → Bool
  matches orbit (orbit_action dx dy) = true
  matches orbit _ = false
  matches pan (pan_action dx dy) = true
  matches pan _ = false
  matches dolly (dolly_action amount) = true
  matches dolly _ = false
  matches move (move_action forward right up) = true
  matches move _ = false
  matches _ _ = true

  abbrev pub all_match : List (Action F) → Bool
  all_match [] = true
  all_match (a ∷ rest) = if matches a.kind a.payload then all_match rest else false

  abbrev pub any_steers : List (Action F) → Bool
  any_steers [] = false
  any_steers (a ∷ rest) = if steers a.kind then true else any_steers rest

  -- A field that takes in what some of the actions bring.
  abbrev pub fold_by :
      {A : Type 0} → (ActionKind → ActionPayload F → A → A) → A → List (Action F) → A
  fold_by f x [] = x
  fold_by f x (a ∷ rest) = fold_by f (f a.kind a.payload x) rest

  module _ (plus : F → F → F) where
    abbrev pub into_orbit_x : ActionKind → ActionPayload F → F → F
    into_orbit_x orbit (orbit_action dx dy) x = plus x dx
    into_orbit_x _ _ x = x

    abbrev pub into_orbit_y : ActionKind → ActionPayload F → F → F
    into_orbit_y orbit (orbit_action dx dy) x = plus x dy
    into_orbit_y _ _ x = x

    abbrev pub into_pan_x : ActionKind → ActionPayload F → F → F
    into_pan_x pan (pan_action dx dy) x = plus x dx
    into_pan_x _ _ x = x

    abbrev pub into_pan_y : ActionKind → ActionPayload F → F → F
    into_pan_y pan (pan_action dx dy) x = plus x dy
    into_pan_y _ _ x = x

    abbrev pub into_dolly : ActionKind → ActionPayload F → F → F
    into_dolly dolly (dolly_action amount) x = plus x amount
    into_dolly _ _ x = x

  abbrev pub into_forward : ActionKind → ActionPayload F → F → F
  into_forward move (move_action forward right up) x = forward
  into_forward _ _ x = x

  abbrev pub into_right : ActionKind → ActionPayload F → F → F
  into_right move (move_action forward right up) x = right
  into_right _ _ x = x

  abbrev pub into_up : ActionKind → ActionPayload F → F → F
  into_up move (move_action forward right up) x = up
  into_up _ _ x = x

  abbrev pub into_mode : ActionKind → ActionPayload F → Mode → Mode
  into_mode camera_mode_toggle _ m = toggle m
  into_mode _ _ m = m

  -- The controller when every field has taken in its actions.
  abbrev pub steer : (F → F → F) → CameraController F → List (Action F) → CameraController F
  steer plus c actions = record c {
    mode = fold_by into_mode c.mode actions;
    delta = record {
      orbit_x = fold_by (into_orbit_x plus) c.delta.orbit_x actions;
      orbit_y = fold_by (into_orbit_y plus) c.delta.orbit_y actions;
      pan_x = fold_by (into_pan_x plus) c.delta.pan_x actions;
      pan_y = fold_by (into_pan_y plus) c.delta.pan_y actions;
      dolly = fold_by (into_dolly plus) c.delta.dolly actions;
      move_forward = fold_by into_forward c.delta.move_forward actions;
      move_right = fold_by into_right c.delta.move_right actions;
      move_up = fold_by into_up c.delta.move_up actions;
    };
  }

  apply_payload-steer :
      (plus : F → F → F) (c : CameraController F) (k : ActionKind) (p : ActionPayload F)
      → matches k p ≡ true
      → apply_payload plus c k p
        ≡ some (steer plus c (record { kind = k; payload = p } ∷ []), steers k)
  apply_payload-steer plus c orbit (orbit_action dx dy) e = refl
  apply_payload-steer plus c orbit _ e = absurd (cc)
  apply_payload-steer plus c pan (pan_action dx dy) e = refl
  apply_payload-steer plus c pan _ e = absurd (cc)
  apply_payload-steer plus c dolly (dolly_action amount) e = refl
  apply_payload-steer plus c dolly _ e = absurd (cc)
  apply_payload-steer plus c move (move_action forward right up) e = refl
  apply_payload-steer plus c move _ e = absurd (cc)
  apply_payload-steer plus c camera_mode_toggle _ e = refl
  apply_payload-steer plus c _ _ e = refl

  pub apply_actions-steer :
      (plus : F → F → F) (actions : List (Action F)) (c : CameraController F) (consumed : Bool)
      → all_match actions ≡ true
      → apply_actions plus c consumed actions
        ≡ some (steer plus c actions, if any_steers actions then true else consumed)
  unfolding apply_actions
  apply_actions-steer plus [] c consumed e = refl
  apply_actions-steer plus (a ∷ rest) c consumed e =
      let here = apply_payload-steer plus c a.kind a.payload (ground arith) in
      let all : all_match rest ≡ true = ground arith in
      rw here (
        apply_actions-steer plus rest (steer plus c (a ∷ [])) _ all
        ∙ ap (λ b. some (steer plus c (a ∷ rest), b))
            (flags (any_steers rest) (steers a.kind) consumed))
