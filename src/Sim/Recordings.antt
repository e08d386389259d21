-- ===== src/Sim/Recordings.antt =====
-- `start_camera_recording`, `update_camera_recording_pose` and `stop_camera_recording` of `DRLServer`
-- in GzDRL/src/rl_server.cc, which wait for the render thread, with the functions of `Sensors` that
-- they call in GzDRL/src/sensor/sensor_interface.cc.
pub mod Answers
pub mod Ends
use gz_drl.Base.{
  ℕ, zero, suc, Bool, true, false, not, Option, none, some, List, [], ◌∷◌, if◌then◌else◌, Name,
  nat_eq, name_eq, both_eq, runtime_error, Result, ok, throws,
}
use gz_drl.Video.Defs.{
  Types, State, k_none, k_queued, k_active, CameraConfig, Rendering, Manager, set_scene,
  start_recording, update_recording_cam_pos, stop_recording, recording_state,
}
use gz_drl.Video.Render.{on_render}

-- What the render thread does to the recorder: it gets the scene, and it renders.
pub data RenderStep : Type 0 where
  gets_scene : RenderStep
  renders : ℕ → RenderStep

-- A call of `run_once`: what the render thread does meanwhile, and whether the deadline has passed
-- behind it.
pub record Round : Type 0 where
  pub steps : List RenderStep
  pub late : Bool

module _ {T : Types} (R : Rendering T) where
  unfoldable pub play : List RenderStep → Manager T → Manager T
  unfolding set_scene on_render
  play [] m = m
  play (gets_scene ∷ steps) m = play steps (set_scene true m)
  play (renders t ∷ steps) m = play steps (on_render R t m)

  -- `while (busy) { run_once(); if (late) throw; }`, with the rounds to come; there is no result
  -- where it is still in the loop when these end.
  unfoldable pub wait_while :
      (Manager T → Bool) → List Round → Manager T → Option (Result (Unit {0}) × Manager T)
  unfolding play
  wait_while busy [] m = if busy m then none else some (ok tt, m)
  wait_while busy (r ∷ rounds) m =
      let m' = play r.steps m in
      let rest = wait_while busy rounds m' in
      if busy m then (if r.late then some (throws runtime_error, m') else rest) else some (ok tt, m)

-- `CameraRecordingQueued` and `CameraRecordingBusy`.
abbrev pub is_k_queued : State → Bool
is_k_queued k_none = false
is_k_queued k_queued = true
is_k_queued k_active = false

abbrev pub is_k_none : State → Bool
is_k_none k_none = true
is_k_none k_queued = false
is_k_none k_active = false

module _ {T : Types} where
  unfoldable pub camera_recording_queued : Name → Manager T → Bool
  unfolding recording_state
  camera_recording_queued cam_name m = is_k_queued (recording_state cam_name m)

  unfoldable pub camera_recording_busy : Name → Manager T → Bool
  unfolding recording_state
  camera_recording_busy cam_name m = not (is_k_none (recording_state cam_name m))

  -- What comes behind the loop of a start.
  abbrev pub check_started :
      (Manager T → Bool)
      → Option (Result (Unit {0}) × Manager T)
      → Option (Result (Unit {0}) × Manager T)
  check_started busy none = none
  check_started busy (some (throws e, m)) = some (throws e, m)
  check_started busy (some (ok _, m)) =
      if busy m then some (ok tt, m) else some (throws runtime_error, m)

module _ {T : Types} (R : Rendering T) where
  -- The first argument of each is `sensors_enabled_`.
  unfoldable pub start_camera_recording :
      Bool
      → Name
      → T.Pose
      → Name
      → CameraConfig T
      → List Round
      → Manager T
      → Option (Result (Unit {0}) × Manager T)
  unfolding wait_while camera_recording_queued camera_recording_busy start_recording
  start_camera_recording false cam_name pose output_file cfg rounds m =
      some (throws runtime_error, m)
  start_camera_recording true cam_name pose output_file cfg rounds m =
      check_started (camera_recording_busy cam_name) (
        wait_while R (camera_recording_queued cam_name) rounds
          (start_recording cam_name pose output_file cfg m).1)

  unfoldable pub stop_camera_recording :
      Bool → Name → List Round → Manager T → Option (Result (Unit {0}) × Manager T)
  unfolding wait_while camera_recording_busy stop_recording
  stop_camera_recording false cam_name rounds m = some (throws runtime_error, m)
  stop_camera_recording true cam_name rounds m =
      wait_while R (camera_recording_busy cam_name) rounds (stop_recording cam_name m).1

module _ {T : Types} where
  unfoldable pub update_camera_recording_pose :
      Bool → Name → T.Pose → Manager T → Result (Unit {0}) × Manager T
  unfolding update_recording_cam_pos
  update_camera_recording_pose false cam_name pose m = (throws runtime_error, m)
  update_camera_recording_pose true cam_name pose m =
      (ok tt, (update_recording_cam_pos cam_name pose m).1)
