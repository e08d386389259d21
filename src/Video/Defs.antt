-- ===== src/Video/Defs.antt =====
-- The recorder's data, and the calls that any thread may make.
use gz_drl.Base.{
  ℕ, ◌-◌, ◌^◌, Bool, true, false, ◌||◌, List, [], ◌∷◌, ◌++◌, Option, none, some, Name, is_empty,
  length, ltb, leb, if◌then◌else◌, name_eq,
}
use gz_drl.Base.Map.{Map, find, contains, insert, erase}

-- Types of the rendering and of the math library: poses and floating-point numbers.
pub record Types : Type 1 where
  pub Pose : Type 0
  pub Double : Type 0

-- Lifecycle state of a recording.
pub data State : Type 0 where
  k_none k_queued k_active : State

pub record CameraConfig (T : Types) : Type 0 where
  pub width : ℕ
  pub height : ℕ
  pub fps : ℕ
  pub bitrate : ℕ
  pub hfov_rad : T.Double
  pub near_clip : T.Double
  pub far_clip : T.Double
  pub anti_aliasing : ℕ

pub data Command (T : Types) : Type 0 where
  k_start : Name → T.Pose → Name → CameraConfig T → Command T
  k_update_pose : Name → T.Pose → Command T
  k_stop : Name → Command T

-- The name that a command is for.
abbrev pub target : {T : Types} → Command T → Name
target (k_start name pose output config) = name
target (k_update_pose name pose) = name
target (k_stop name) = name

-- A call of the scene, of a camera or of an encoder. `name` is the recording's.
pub data Call (T : Types) : Type 0 where
  create_camera : Name → Name → Call T
  configure : Name → CameraConfig T → T.Pose → Call T
  set_local_pose : Name → T.Pose → Call T
  start_encoder : Name → Name → Name → CameraConfig T → Call T
  render_and_copy : Name → Call T
  add_frame : Name → ℕ → Call T
  save_to_file : Name → Name → Call T
  destroy_sensor : Name → Call T

-- What the rendering library and the encoder answer, given all calls before, the latest first:
-- whether a camera was created, an encoder started, a frame taken, a file saved, and whether the
-- encoder of a recording is encoding.
pub record Rendering (T : Types) : Type 0 where
  pub creates : List (Call T) → Name → Bool
  pub starts : List (Call T) → Name → Bool
  pub is_encoding : List (Call T) → Name → Bool

pub record Recording (T : Types) : Type 0 where
  pub output_name : Name
  pub config : CameraConfig T
  pub next_frame_time : ℕ
  pub frame_period : ℕ
  pub warmup : Bool

pub record Manager (T : Types) : Type 0 where
  pub scene : Bool
  pub commands : List (Command T)
  pub pending_commands : ℕ
  pub states : Map Name State
  pub next_frame_time_ns : ℕ
  pub recordings : Map Name (Recording T)
  pub calls : List (Call T)

-- `std::numeric_limits<std::int64_t>::max()`.
abbrev pub int64_max : ℕ
int64_max = 2 ^ 63 - 1

module _ {T : Types} where
  -- A manager as it is constructed.
  abbrev pub initial : Manager T
  initial = record {
    scene = false;
    commands = [];
    pending_commands = 0;
    states = [];
    next_frame_time_ns = int64_max;
    recordings = [];
    calls = [];
  }

  -- The scene may be a null pointer.
  unfoldable pub set_scene : Bool → Manager T → Manager T
  set_scene s m = record m { scene = s }

  -- The first locked block of `StartRecording`: `none` where the name is taken.
  unfoldable pub reserve : Name → Manager T → Option (Manager T)
  reserve cam_name m =
      if contains cam_name m.states
      then none
      else some (record m { states = insert cam_name k_queued m.states })

  -- The block that the three requests share.
  unfoldable pub enqueue : Command T → Manager T → Manager T
  enqueue c m = record m {
    commands = m.commands ++ c ∷ [];
    pending_commands = length (m.commands ++ c ∷ []);
  }

  unfoldable pub start_recording :
      Name → T.Pose → Name → CameraConfig T → Manager T → Bool × Manager T
  unfolding reserve enqueue
  start_recording cam_name pose output_name config m =
      if is_empty cam_name || is_empty output_name then (false, m) else elim (reserve cam_name m) [
        | none ↦ (false, m)
        | some m' ↦ (true, enqueue (k_start cam_name pose output_name config) m')
      ]

  unfoldable pub recording_state : Name → Manager T → State
  recording_state cam_name m = elim (find cam_name m.states) [ none ↦ k_none | some s ↦ s ]

  unfoldable pub update_recording_cam_pos : Name → T.Pose → Manager T → Bool × Manager T
  unfolding enqueue
  update_recording_cam_pos cam_name pose m =
      if is_empty cam_name then (false, m) else (true, enqueue (k_update_pose cam_name pose) m)

  unfoldable pub stop_recording : Name → Manager T → Bool × Manager T
  unfolding enqueue
  stop_recording cam_name m =
      if is_empty cam_name then (false, m) else (true, enqueue (k_stop cam_name) m)

  unfoldable pub requires_render : ℕ → Manager T → Bool
  requires_render sim_time m =
      if ltb 0 m.pending_commands then true else leb m.next_frame_time_ns sim_time

  unfoldable pub clear_state : Name → Manager T → Manager T
  clear_state name m = record m { states = erase name m.states }
