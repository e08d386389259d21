-- ===== src/Video/Run.antt =====
-- Histories of calls of the recorder.
pub mod Settled
pub mod States
pub mod Leaks
pub mod Pacing
use gz_drl.Base.{ℕ, Bool, List, [], ◌∷◌, Name}
use gz_drl.Video.Defs.{
  Types, CameraConfig, Rendering, Manager, initial, set_scene, start_recording, stop_recording,
  update_recording_cam_pos,
}
use gz_drl.Video.Render.{on_render, shutdown}

pub data Op (T : Types) : Type 0 where
  sets_scene : Bool → Op T
  starts : Name → T.Pose → Name → CameraConfig T → Op T
  updates : Name → T.Pose → Op T
  stops : Name → Op T
  renders : ℕ → Op T
  shuts_down : Op T

module _ {T : Types} (R : Rendering T) where
  unfoldable pub apply : Op T → Manager T → Manager T
  apply (sets_scene b) m = set_scene b m
  apply (starts name pose output config) m = (start_recording name pose output config m).1
  apply (updates name pose) m = (update_recording_cam_pos name pose m).1
  apply (stops name) m = (stop_recording name m).1
  apply (renders t) m = on_render R t m
  apply shuts_down m = shutdown R m

  unfoldable pub run : List (Op T) → Manager T → Manager T
  run [] m = m
  run (op ∷ ops) m = run ops (apply op m)
