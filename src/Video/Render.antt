-- ===== src/Video/Render.antt =====
-- The part of the recorder that runs in the render thread.
pub mod Cases
pub mod Lifecycle
pub mod Idle
pub mod Cameras
use gz_drl.Base.{
  ◌≡◌, ap, ℕ, ◌+◌, ◌/◌, true, false, not, List, [], ◌∷◌, ◌++◌, none, some, Name, codes, ltb,
  if◌then◌else◌, name_eq,
}
use gz_drl.Base.Map.{Map, find, contains, insert, erase}
use gz_drl.Video.FileName.{format_from_filename, tmp_name}
use gz_drl.Video.Defs.{
  Types, State, k_active, CameraConfig, Command, k_start, k_update_pose, k_stop, Call,
  create_camera, configure, set_local_pose, start_encoder, render_and_copy, add_frame, save_to_file,
  destroy_sensor, Rendering, Recording, Manager, int64_max, clear_state,
}

-- The camera's name in the scene.
abbrev pub camera_name : Name → Name
camera_name name = codes "video_recorder::" ++ name

module _ {T : Types} where
  abbrev pub make_call : Call T → Manager T → Manager T
  make_call c m = record m { calls = c ∷ m.calls }

  -- A frame period is a second by `fps`, cut to nanoseconds. (The source divides floating-point
  -- numbers; the result is this one for every `fps` but 0, where it has no defined value.)
  unfoldable pub new_recording : Name → CameraConfig T → Recording T
  new_recording output config = record {
    output_name = output;
    config = config;
    next_frame_time = 0;
    frame_period = 1_000_000_000 / config.fps;
    warmup = true;
  }

  unfoldable pub refresh_hint : ℕ → Map Name (Recording T) → ℕ
  refresh_hint next [] = next
  refresh_hint next ((name, rec) ∷ recs) =
      refresh_hint (if ltb rec.next_frame_time next then rec.next_frame_time else next) recs

  unfoldable pub refresh_next_frame_hint : Manager T → Manager T
  refresh_next_frame_hint m = record m { next_frame_time_ns = refresh_hint int64_max m.recordings }

  abbrev pub recording_names : Map Name (Recording T) → List Name
  recording_names [] = []
  recording_names ((name, rec) ∷ recs) = name ∷ recording_names recs

module _ {T : Types} (R : Rendering T) where
  -- `DoStart` behind a successful `CreateCamera`.
  unfoldable pub start_encoding : Name → T.Pose → Name → CameraConfig T → Manager T → Manager T
  unfolding clear_state new_recording
  start_encoding name pose output config m =
      let configured = configure name config pose ∷ m.calls in
      let started =
        start_encoder name (format_from_filename output) (tmp_name output) config ∷ configured in
      if R.starts configured name
      then record m {
        calls = started;
        recordings = insert name (new_recording output config) m.recordings;
        states = insert name k_active m.states;
      }
      else clear_state name (record m { calls = destroy_sensor name ∷ started })

  unfoldable pub do_start : Name → T.Pose → Name → CameraConfig T → Manager T → Manager T
  unfolding start_encoding clear_state
  do_start name pose output config m =
      if contains name m.recordings
      then m
      else let asked = make_call (create_camera name (camera_name name)) m in
        if R.creates m.calls name
        then start_encoding name pose output config asked
        else clear_state name asked

  -- A held recording's camera is destroyed in the scene; the source relies on there being one.
  unfoldable pub do_stop : Name → Manager T → Manager T
  unfolding clear_state
  do_stop name m = elim (find name m.recordings) [
    | none ↦ clear_state name m
    | some rec ↦
        let saved =
          if R.is_encoding m.calls name
          then make_call (save_to_file name rec.output_name) m
          else m in
        let destroyed = make_call (destroy_sensor name) saved in
        clear_state name (record destroyed { recordings = erase name m.recordings })
  ]

  unfoldable pub do_command : Command T → Manager T → Manager T
  unfolding do_start do_stop
  do_command (k_start name pose output config) m = do_start name pose output config m
  do_command (k_update_pose name pose) m =
      if contains name m.recordings then make_call (set_local_pose name pose) m else m
  do_command (k_stop name) m = do_stop name m

  unfoldable pub do_commands : List (Command T) → Manager T → Manager T
  do_commands [] m = m
  do_commands (c ∷ cs) m = do_commands cs (do_command c m)

  unfoldable pub process_commands : Manager T → Manager T
  unfolding do_commands
  process_commands m = do_commands m.commands (record m { commands = []; pending_commands = 0 })

  -- One round of the loop of `OnRender`: the recording, and the calls behind it.
  unfoldable pub render_one : ℕ → Name → Recording T → List (Call T) → Recording T × List (Call T)
  render_one sim_time name rec calls =
      if not (R.is_encoding calls name)
      then (rec, calls)
      else if rec.warmup
      then (record rec { warmup = false }, calls)
      else if ltb sim_time rec.next_frame_time
      then (rec, calls)
      else (
        record rec { next_frame_time = sim_time + rec.frame_period },
        add_frame name sim_time ∷ render_and_copy name ∷ calls,
      )

  unfoldable pub render_all :
      ℕ → Map Name (Recording T) → List (Call T) → Map Name (Recording T) × List (Call T)
  unfolding render_one
  render_all sim_time [] calls = ([], calls)
  render_all sim_time ((name, rec) ∷ recs) calls =
      let (rec', calls') = render_one sim_time name rec calls in
      let (recs', calls'') = render_all sim_time recs calls' in ((name, rec') ∷ recs', calls'')

  unfoldable pub render_frames : ℕ → Manager T → Manager T
  unfolding render_all
  render_frames sim_time m =
      let (recs, calls) = render_all sim_time m.recordings m.calls in
      record m { recordings = recs; calls = calls }

  unfoldable pub on_render : ℕ → Manager T → Manager T
  unfolding process_commands render_frames refresh_next_frame_hint
  on_render sim_time m =
      if not m.scene
      then m
      else refresh_next_frame_hint (render_frames sim_time (process_commands m))

  pub on_render_scene :
      (t : ℕ) (m : Manager T)
      → m.scene ≡ true
      → on_render t m ≡ refresh_next_frame_hint (render_frames t (process_commands m))
  unfolding on_render
  on_render_scene t m h =
      let drawn = refresh_next_frame_hint (render_frames t (process_commands m)) in
      ap (λ b. if not b then m else drawn) h

  pub on_render_no_scene : (t : ℕ) (m : Manager T) → m.scene ≡ false → on_render t m ≡ m
  unfolding on_render
  on_render_no_scene t m h =
      let drawn = refresh_next_frame_hint (render_frames t (process_commands m)) in
      ap (λ b. if not b then m else drawn) h

  unfoldable pub stop_all : List Name → Manager T → Manager T
  unfolding do_stop
  stop_all [] m = m
  stop_all (name ∷ names) m = stop_all names (do_stop name m)

  unfoldable pub shutdown : Manager T → Manager T
  unfolding stop_all refresh_next_frame_hint
  shutdown m = refresh_next_frame_hint (stop_all (recording_names m.recordings) m)
