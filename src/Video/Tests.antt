-- ===== src/Video/Tests.antt =====
-- The recorder at concrete inputs: a scene that makes every camera and encoder.
use gz_drl.Base.{
  ℕ, ◌≡◌, ◌≢◌, refl, ◌↔◌, ◌⊎◌, true, false, List, [], ◌∷◌, ◌++◌, some, none, Name, codes,
  if◌then◌else◌, ◌+◌, name_eq,
}
use gz_drl.Base.Map.{find, contains, insert}
use gz_drl.Video.Defs.{
  Types, k_none, k_queued, k_active, CameraConfig, k_start, Rendering, Recording, initial, reserve,
  start_recording, recording_state, requires_render, set_scene,
}
use gz_drl.Video.FileName.Search.{find_last_of}
use gz_drl.Video.FileName.{extension_start, tmp_name, format_from_filename}
use gz_drl.Video.FileName.Laws.{tmp_name-ne, format-tmp_name, tmp_name-shared}
use gz_drl.Video.Render.{on_render, shutdown, do_command, refresh_hint}
use gz_drl.Video.Render.Lifecycle.{has_start}
use gz_drl.Video.Render.Cameras.{made, destroyed}
use gz_drl.Video.Run.{Op, sets_scene, starts, renders, apply, run}
use gz_drl.Video.Run.Settled.{on_render-idle-run}
use gz_drl.Video.Run.Leaks.{made-run, shutdown-run}
use gz_drl.Video.Run.States.{recording_state-on_render-run}
use gz_drl.Video.Run.Pacing.{frames, Spaced, frames-run}
use gz_drl.Video.Threads.{System, Reach, here, next, reserves, started, waiting, Reach-started}

abbrev plain : Types
plain = record { Pose = ℕ; Double = ℕ }

abbrev willing : Rendering plain
willing = record { creates = λ cs n. true; starts = λ cs n. true; is_encoding = λ cs n. true }

abbrev config : CameraConfig plain
config = record {
  width = 1280;
  height = 720;
  fps = 25;
  bitrate = 0;
  hfov_rad = 1;
  near_clip = 1;
  far_clip = 1000;
  anti_aliasing = 2;
}

abbrev cam : Name
cam = codes "cam"

abbrev clip : Name
clip = codes "out.d/clip.mp4"

-- A recording that was started, has warmed up, and has taken two frames.
abbrev history : List (Op plain)
history =
    sets_scene true ∷ starts cam 0 clip config ∷ renders 0 ∷ renders 5 ∷ renders 50_000_000 ∷ []

-- The recording after that history.
abbrev held : Recording plain
held = record {
  output_name = clip;
  config = config;
  next_frame_time = 90_000_000;
  frame_period = 40_000_000;
  warmup = false;
}

clip_tmp : tmp_name clip ≡ codes "out.d/clip.tmp.mp4"
unfolding tmp_name extension_start format_from_filename find_last_of
clip_tmp = refl

two_frames : frames cam (run willing history initial).calls ≡ 50_000_000 ∷ 5 ∷ []
unfolding run apply start_recording set_scene on_render do_command refresh_hint find insert
two_frames = refl

held_found : find cam (run willing history initial).recordings ≡ some held
unfolding run apply start_recording set_scene on_render do_command refresh_hint find insert
held_found = refl

frames-run_example : Spaced 40_000_000 90_000_000 (frames cam (run willing history initial).calls)
frames-run_example = frames-run willing cam history held held_found

made-run_example :
    made cam (run willing history initial).calls
    ≡ destroyed cam (run willing history initial).calls
      + (if contains cam (run willing history initial).recordings then 1 else 0)
made-run_example = made-run willing cam history

shutdown-run_example :
    let before = run willing history initial in
    let m = shutdown willing before in
    ((contains cam before.recordings ≡ false) ⊎ (before.scene ≡ true))
    × (find cam m.recordings ≡ none)
    × (made cam m.calls ≡ destroyed cam m.calls)
shutdown-run_example = shutdown-run willing cam history (refl, (tt, (tt, (tt, (tt, tt)))))

not_due : requires_render 60_000_000 (run willing history initial) ≡ false
unfolding requires_render run apply start_recording set_scene on_render do_command refresh_hint find
    insert
not_due = refl

on_render-idle-run_example :
    on_render willing 60_000_000 (run willing history initial) ≡ run willing history initial
on_render-idle-run_example = on_render-idle-run willing history 60_000_000 not_due

recording_state-on_render-run_example :
    let m = on_render willing 70_000_000 (run willing history initial) in
    recording_state cam m ≡ (if contains cam m.recordings then k_active else k_none)
unfolding run apply start_recording set_scene on_render do_command refresh_hint find insert
recording_state-on_render-run_example =
    recording_state-on_render-run willing cam history 70_000_000 refl

-- A caller has reserved the name and not yet queued its command.
abbrev reserved : System plain
reserved = record {
  manager = record initial { states = (cam, k_queued) ∷ [] };
  taken = [];
  in_flight = k_start cam 0 clip config ∷ [];
}

to_reserved : Reach willing started reserved
unfolding reserve find insert
to_reserved =
    next here (reserves cam 0 clip config (record initial { states = (cam, k_queued) ∷ [] }) refl)

Reach-started_example :
    ((recording_state cam reserved.manager ≡ k_active)
      ↔ (contains cam reserved.manager.recordings ≡ true))
    × (recording_state cam reserved.manager ≡ k_queued → has_start cam (waiting reserved) ≡ true)
Reach-started_example = Reach-started willing cam to_reserved

tmp_name-ne_example : tmp_name clip ≢ clip
tmp_name-ne_example = tmp_name-ne clip

format-tmp_name_example : format_from_filename (tmp_name clip) ≡ format_from_filename clip
format-tmp_name_example = format-tmp_name clip

tmp_name-shared_example :
    tmp_name (codes "clip" ++ b'.' ∷ codes "mkv") ≡ tmp_name (codes "clip" ++ b'.' ∷ codes "mp4")
unfolding find_last_of
tmp_name-shared_example =
    tmp_name-shared (codes "clip") (codes "mkv") (codes "mp4") refl refl refl refl refl
