-- ===== src/Sim/Tests/Recordings.antt =====
-- Runs of the waits for recordings, and their theorems at concrete inputs.
use gz_drl.Base.{
  ℕ, ◌≡◌, refl, true, false, not, Option, none, some, List, [], ◌∷◌, arith, if◌then◌else◌, Name,
  codes, name_beq, nat_eq, name_eq, both_eq, runtime_error, Result, ok, throws,
}
use gz_drl.Base.Map.{find, contains, insert, erase}
use gz_drl.Video.Defs.{
  Types, k_none, k_active, CameraConfig, Rendering, Manager, initial, set_scene, start_recording,
  reserve, enqueue, recording_state, clear_state,
}
use gz_drl.Video.Render.{
  on_render, process_commands, do_commands, do_command, do_start, start_encoding, render_frames,
  render_all, render_one, refresh_next_frame_hint, refresh_hint, new_recording,
}
use gz_drl.Video.Render.Lifecycle.{Synced}
use gz_drl.Sim.Recordings.{
  Round, gets_scene, renders, play, wait_while, start_camera_recording, stop_camera_recording,
  camera_recording_queued, camera_recording_busy,
}
use gz_drl.Sim.Recordings.Ends.{start_camera_recording-ends, stop_camera_recording-ends}

abbrev plain : Types
plain = record { Pose = ℕ; Double = ℕ }

-- Cameras are created; an encoder starts for a name other than this one.
abbrev broken : Name
broken = codes "broken"

abbrev picky : Rendering plain
picky = record {
  creates = λ cs n. true;
  starts = λ cs n. not (name_beq n broken);
  is_encoding = λ cs n. true;
}

abbrev config : CameraConfig plain
config = record {
  width = 1280;
  height = 720;
  fps = 25;
  bitrate = 0;
  hfov_rad = 1;
  near_clip = 1;
  far_clip = 1000;
  anti_aliasing = 2;
}

abbrev cam : Name
cam = codes "cam"

abbrev clip : Name
clip = codes "clip.mp4"

-- The scene comes in the second round, and a render in the third.
abbrev some_rounds : List Round
some_rounds =
    record { steps = []; late = false }
    ∷ record { steps = gets_scene ∷ []; late = false }
    ∷ record { steps = renders 0 ∷ []; late = false }
    ∷ []

initial-Synced : Synced {T = plain} cam [] initial
unfolding find
initial-Synced = (refl, λ e. ground (arith, e))

start_camera_recording-ends_example :
    (m' : Manager plain) × (start_camera_recording picky true cam 0 clip config some_rounds initial
      ≡ some (if contains cam m'.recordings then ok tt else throws runtime_error, m'))
    × (recording_state cam m' ≡ (if contains cam m'.recordings then k_active else k_none))
start_camera_recording-ends_example =
    start_camera_recording-ends picky cam 0 clip config some_rounds initial initial-Synced
      (refl, (refl, (refl, tt))) refl

stop_camera_recording-ends_example :
    (m' : Manager plain) × (stop_camera_recording picky true cam some_rounds initial
      ≡ some (ok tt, m'))
    × (recording_state cam m' ≡ k_none)
stop_camera_recording-ends_example =
    stop_camera_recording-ends picky cam some_rounds initial refl (refl, (refl, (refl, tt))) refl

-- The result of a start, without the state that it leaves.
abbrev result_of : Option (Result (Unit {0}) × Manager plain) → Option (Result (Unit {0}))
result_of none = none
result_of (some (r, m)) = some r

start_run :
    result_of (start_camera_recording picky true cam 0 clip config some_rounds initial)
    ≡ some (ok tt)
unfolding start_camera_recording wait_while start_recording reserve enqueue camera_recording_queued
    camera_recording_busy recording_state play set_scene on_render process_commands do_commands
    do_command do_start start_encoding render_frames render_all render_one refresh_next_frame_hint
    refresh_hint new_recording clear_state find insert erase
start_run = refl

-- The encoder does not start.
broken_run :
    result_of (start_camera_recording picky true broken 0 clip config some_rounds initial)
    ≡ some (throws runtime_error)
unfolding start_camera_recording wait_while start_recording reserve enqueue camera_recording_queued
    camera_recording_busy recording_state play set_scene on_render process_commands do_commands
    do_command do_start start_encoding render_frames render_all render_one refresh_next_frame_hint
    refresh_hint new_recording clear_state find insert erase
broken_run = refl

-- A deadline that passes before the scene is there.
late_run :
    result_of (
      start_camera_recording picky true cam 0 clip config
        (record { steps = []; late = true } ∷ [])
        initial)
    ≡ some (throws runtime_error)
unfolding start_camera_recording wait_while start_recording reserve enqueue camera_recording_queued
    recording_state play find insert
late_run = refl
