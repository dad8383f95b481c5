-- ===== src/Scene/CameraController.antt =====
-- The data of `CameraController` of hpr/scene/camera_controller.hpp. `F` stands for `float`.
pub data Mode : Type 0 where
  fly : Mode
  iso : Mode

pub record DeltaInput (F : Type 0) : Type 0 where
  pub orbit_x : F
  pub orbit_y : F
  pub pan_x : F
  pub pan_y : F
  pub dolly : F
  pub move_forward : F
  pub move_right : F
  pub move_up : F

pub record CameraController (F : Type 0) : Type 0 where
  pub yaw : F
  pub pitch : F
  pub move_speed : F
  pub mouse_sens : F
  pub mode : Mode
  pub delta : DeltaInput F
  pub iso_ortho_height : F
  pub iso_pitch : F
  pub iso_yaw : F
  pub iso_min_depth_span : F
  pub iso_depth_multiplier : F
