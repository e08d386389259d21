-- ===== src/Video/Render/Cameras.antt =====
-- The cameras that the recorder makes in the scene.
use gz_drl.Base.{
  ℕ, suc, ◌+◌, ◌≡◌, refl, false, List, [], ◌∷◌, none, arith, Name, inl, inr, Bool-cases, ◌==◌,
  name_eq, name_beq_iff, if◌then◌else◌,
}
use gz_drl.Base.Map.{Map, find, contains, find-insert, find-erase}
use gz_drl.Video.Defs.{
  CameraConfig, Types, Command, k_start, k_update_pose, k_stop, Call, create_camera, configure,
  set_local_pose, start_encoder, render_and_copy, add_frame, save_to_file, destroy_sensor,
  Rendering, Recording, Manager,
}
use gz_drl.Video.Render.{
  new_recording, do_start, do_command, do_commands, do_stop, process_commands, render_one,
  render_all, render_frames, on_render, on_render_scene, on_render_no_scene,
  refresh_next_frame_hint, shutdown, stop_all, recording_names,
}

-- How often a camera was made for the name, and how often one was destroyed.
abbrev pub made : {T : Types} → Name → List (Call T) → ℕ
made n [] = 0
made n (configure name config pose ∷ cs) = if name == n then suc (made n cs) else made n cs
made n (create_camera name camera ∷ cs) = made n cs
made n (set_local_pose name pose ∷ cs) = made n cs
made n (start_encoder name format tmp config ∷ cs) = made n cs
made n (render_and_copy name ∷ cs) = made n cs
made n (add_frame name t ∷ cs) = made n cs
made n (save_to_file name output ∷ cs) = made n cs
made n (destroy_sensor name ∷ cs) = made n cs

abbrev pub destroyed : {T : Types} → Name → List (Call T) → ℕ
destroyed n [] = 0
destroyed n (destroy_sensor name ∷ cs) = if name == n then suc (destroyed n cs) else destroyed n cs
destroyed n (configure name config pose ∷ cs) = destroyed n cs
destroyed n (create_camera name camera ∷ cs) = destroyed n cs
destroyed n (set_local_pose name pose ∷ cs) = destroyed n cs
destroyed n (start_encoder name format tmp config ∷ cs) = destroyed n cs
destroyed n (render_and_copy name ∷ cs) = destroyed n cs
destroyed n (add_frame name t ∷ cs) = destroyed n cs
destroyed n (save_to_file name output ∷ cs) = destroyed n cs

-- One camera of the name lives if its recording is held, and none otherwise.
abbrev pub Balanced : {T : Types} → Name → Map Name (Recording T) → List (Call T) → Type 0
Balanced n recs calls = made n calls ≡ destroyed n calls + (if contains n recs then 1 else 0)

module _ {T : Types} (R : Rendering T) (n : Name) where
  do_start-Balanced :
      (name : Name) (pose : T.Pose) (output : Name) (config : CameraConfig T) (m : Manager T)
      → Balanced n m.recordings m.calls
      → let m' = do_start R name pose output config m in Balanced n m'.recordings m'.calls
  unfolding do_start
  do_start-Balanced name pose output config m h =
      ground
        (arith, name_beq_iff name n, find-insert name n (new_recording output config) m.recordings)

  do_stop-Balanced :
      (name : Name) (m : Manager T)
      → Balanced n m.recordings m.calls
      → Balanced n (do_stop R name m).recordings (do_stop R name m).calls
  unfolding do_stop
  do_stop-Balanced name m h = ground (arith, name_beq_iff name n, find-erase name n m.recordings)

  do_command-Balanced :
      (c : Command T) (m : Manager T)
      → Balanced n m.recordings m.calls
      → Balanced n (do_command R c m).recordings (do_command R c m).calls
  unfolding do_command
  do_command-Balanced (k_start name pose output config) m h =
      do_start-Balanced name pose output config m h
  do_command-Balanced (k_update_pose name pose) m h = ground arith
  do_command-Balanced (k_stop name) m h = do_stop-Balanced name m h

  do_commands-Balanced :
      (cs : List (Command T)) (m : Manager T)
      → Balanced n m.recordings m.calls
      → Balanced n (do_commands R cs m).recordings (do_commands R cs m).calls
  unfolding do_commands
  do_commands-Balanced [] m h = h
  do_commands-Balanced (c ∷ cs) m h =
      do_commands-Balanced cs (do_command R c m) (do_command-Balanced c m h)

  render_one-counts :
      (t : ℕ) (name : Name) (rec : Recording T) (calls : List (Call T))
      → (made n (render_one R t name rec calls).1 ≡ made n calls)
        × (destroyed n (render_one R t name rec calls).1 ≡ destroyed n calls)
  unfolding render_one
  render_one-counts t name rec calls = ground arith

  render_all-counts :
      (t : ℕ) (recs : Map Name (Recording T)) (calls : List (Call T))
      → (made n (render_all R t recs calls).1 ≡ made n calls)
        × (destroyed n (render_all R t recs calls).1 ≡ destroyed n calls)
        × (contains n (render_all R t recs calls).0 ≡ contains n recs)
  unfolding render_all find
  render_all-counts t [] calls = (refl, refl, refl)
  render_all-counts t ((name, rec) ∷ recs) calls = ground (
    arith,
    render_one-counts t name rec calls,
    render_all-counts t recs (render_one R t name rec calls).1,
  )

  render_frames-Balanced :
      (t : ℕ) (m : Manager T)
      → Balanced n m.recordings m.calls
      → let m' = refresh_next_frame_hint (render_frames R t m) in Balanced n m'.recordings m'.calls
  unfolding refresh_next_frame_hint render_frames
  render_frames-Balanced t m h = ground (arith, render_all-counts t m.recordings m.calls)

  pub on_render-Balanced :
      (t : ℕ) (m : Manager T)
      → Balanced n m.recordings m.calls
      → Balanced n (on_render R t m).recordings (on_render R t m).calls
  unfolding process_commands
  on_render-Balanced t m h = elim (Bool-cases m.scene) [
    | inl there ↦ rw (on_render_scene R t m there) (
        render_frames-Balanced t (process_commands R m)
          (do_commands-Balanced m.commands (record m { commands = []; pending_commands = 0 }) h))
    | inr missing ↦ rw (on_render_no_scene R t m missing) h
  ]

  stop_all-Balanced :
      (names : List Name) (m : Manager T)
      → Balanced n m.recordings m.calls
      → Balanced n (stop_all R names m).recordings (stop_all R names m).calls
  unfolding stop_all
  stop_all-Balanced [] m h = h
  stop_all-Balanced (name ∷ names) m h =
      stop_all-Balanced names (do_stop R name m) (do_stop-Balanced name m h)

  pub shutdown-Balanced :
      (m : Manager T)
      → Balanced n m.recordings m.calls
      → Balanced n (shutdown R m).recordings (shutdown R m).calls
  unfolding shutdown refresh_next_frame_hint
  shutdown-Balanced m h = stop_all-Balanced (recording_names m.recordings) m h

  do_stop-find :
      (name : Name) (m : Manager T)
      → find n (do_stop R name m).recordings ≡ (if name == n then none else find n m.recordings)
  unfolding do_stop
  do_stop-find name m = ground (arith, name_beq_iff name n, find-erase name n m.recordings)

  stop_all-recordings :
      (recs : Map Name (Recording T)) (m : Manager T)
      → (contains n recs ≡ false → find n m.recordings ≡ none)
      → find n (stop_all R (recording_names recs) m).recordings ≡ none
  unfolding stop_all find
  stop_all-recordings [] m h = h refl
  stop_all-recordings ((name, rec) ∷ recs) m h =
      stop_all-recordings recs (do_stop R name m) (λ c. ground (arith, do_stop-find name m, h))

  pub shutdown-find : (m : Manager T) → find n (shutdown R m).recordings ≡ none
  unfolding shutdown refresh_next_frame_hint
  shutdown-find m = stop_all-recordings m.recordings m (λ c. ground arith)
