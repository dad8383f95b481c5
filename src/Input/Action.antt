-- ===== src/Input/Action.antt =====
-- hpr/input/action.hpp: what the user does, for the layers. `F` stands for `float`.
use hyprie.Base.{Bool}

-- hpr/editor/editor_data.hpp
pub data GizmoAxis : Type 0 where
  axis_none : GizmoAxis
  axis_x : GizmoAxis
  axis_y : GizmoAxis
  axis_z : GizmoAxis
  axis_xy : GizmoAxis
  axis_xz : GizmoAxis
  axis_yz : GizmoAxis
  axis_screen : GizmoAxis
  axis_all : GizmoAxis

pub data ActionKind : Type 0 where
  orbit : ActionKind
  pan : ActionKind
  dolly : ActionKind
  frame_selection : ActionKind
  select_click : ActionKind
  select_marquee_begin : ActionKind
  select_marquee_update : ActionKind
  select_marquee_end : ActionKind
  gizmo_begin : ActionKind
  gizmo_update : ActionKind
  gizmo_end : ActionKind
  gizmo_set_translate : ActionKind
  gizmo_set_rotate : ActionKind
  gizmo_set_scale : ActionKind
  toggle_grid : ActionKind
  debug_toggle_overlay : ActionKind
  debug_cycle_log_level : ActionKind
  debug_toggle_core : ActionKind
  debug_toggle_render : ActionKind
  debug_toggle_scene : ActionKind
  debug_toggle_asset : ActionKind
  debug_toggle_culling : ActionKind
  debug_toggle_bvh : ActionKind
  debug_scroll_up : ActionKind
  debug_scroll_down : ActionKind
  snap_on : ActionKind
  snap_off : ActionKind
  move : ActionKind
  camera_mode_toggle : ActionKind

-- The alternatives of the variant with their fields.
pub data ActionPayload (F : Type 0) : Type 0 where
  orbit_action : (delta_x delta_y : F) → ActionPayload F
  pan_action : (delta_x delta_y : F) → ActionPayload F
  dolly_action : (amount : F) → ActionPayload F
  frame_selection_action : ActionPayload F
  select_click_action : (click_x click_y : F) (additive : Bool) → ActionPayload F
  select_marquee_begin_action : (begin_x begin_y : F) → ActionPayload F
  select_marquee_update_action : (update_x update_y : F) → ActionPayload F
  select_marquee_end_action : (end_x end_y : F) (additive : Bool) → ActionPayload F
  gizmo_begin_action : (axis : GizmoAxis) → ActionPayload F
  gizmo_update_action : (delta_x delta_y : F) (snapping : Bool) → ActionPayload F
  gizmo_end_action : ActionPayload F
  gizmo_set_translate_action : ActionPayload F
  gizmo_set_rotate_action : ActionPayload F
  gizmo_set_scale_action : ActionPayload F
  toggle_grid_action : ActionPayload F
  debug_toggle_overlay_action : ActionPayload F
  debug_cycle_log_level_action : ActionPayload F
  debug_toggle_core_action : ActionPayload F
  debug_toggle_render_action : ActionPayload F
  debug_toggle_scene_action : ActionPayload F
  debug_toggle_asset_action : ActionPayload F
  debug_toggle_culling_action : ActionPayload F
  debug_toggle_bvh_action : ActionPayload F
  debug_scroll_up_action : ActionPayload F
  debug_scroll_down_action : ActionPayload F
  snap_on_action : ActionPayload F
  snap_off_action : ActionPayload F
  move_action : (forward right up : F) → ActionPayload F
  toggle_camera_mode_action : ActionPayload F

pub record Action (F : Type 0) : Type 0 where
  pub kind : ActionKind
  pub payload : ActionPayload F
