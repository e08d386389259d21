-- ===== src/Video/Run/Pacing.antt =====
-- The pace of a recording: no two frames of it are closer than its frame period.
use gz_drl.Base.{
  ℕ, ◌+◌, ◌≤◌, ◌≡◌, refl, ◌⊎◌, true, false, List, [], ◌∷◌, some, arith, Name, inl, inr, ap,
  Bool-cases, ◌==◌, name_eq, name_beq_iff, ◌∙◌, if◌then◌else◌,
}
use gz_drl.Base.Map.{
  Map, find, contains, find-insert, find-erase, IsUnique, insert-IsUnique, erase-IsUnique,
}
use gz_drl.Video.Defs.{
  Types, Command, k_start, k_update_pose, k_stop, Call, create_camera, configure, set_local_pose,
  start_encoder, render_and_copy, add_frame, save_to_file, destroy_sensor, Rendering, Recording,
  Manager, initial, set_scene, start_recording, stop_recording, update_recording_cam_pos,
}
use gz_drl.Video.Render.{
  new_recording, do_stop, do_command, do_commands, process_commands, render_one, render_all,
  render_frames, on_render, on_render_scene, on_render_no_scene, refresh_next_frame_hint, shutdown,
  stop_all, recording_names,
}
use gz_drl.Video.Render.Cases.{Changed, do_command_cases}
use gz_drl.Video.Run.{Op, sets_scene, starts, updates, stops, renders, shuts_down, apply, run}

-- The times of the frames taken for the name since its camera was made, the latest first.
abbrev pub frames : {T : Types} → Name → List (Call T) → List ℕ
frames n [] = []
frames n (add_frame name t ∷ cs) = if name == n then t ∷ frames n cs else frames n cs
frames n (configure name config pose ∷ cs) = if name == n then [] else frames n cs
frames n (create_camera name camera ∷ cs) = frames n cs
frames n (set_local_pose name pose ∷ cs) = frames n cs
frames n (start_encoder name format tmp config ∷ cs) = frames n cs
frames n (render_and_copy name ∷ cs) = frames n cs
frames n (save_to_file name output ∷ cs) = frames n cs
frames n (destroy_sensor name ∷ cs) = frames n cs

-- Each time is at least the period before the next one, the last before `next`.
abbrev pub Spaced : ℕ → ℕ → List ℕ → Type 0
Spaced period next [] = Unit
Spaced period next (t ∷ ts) = (t + period ≤ next) × Spaced period t ts

Spaced-mono : (period s t : ℕ) (ts : List ℕ) → s ≤ t → Spaced period s ts → Spaced period t ts
Spaced-mono period s t [] h d = tt
Spaced-mono period s t (u ∷ ts) h d = (omega arith, d.1)

-- What the recorder keeps for a name.
abbrev IsPaced : {T : Types} → Name → Map Name (Recording T) → List (Call T) → Type 0
IsPaced {T} n recs calls =
    (rec : Recording T)
    → find n recs ≡ some rec
    → Spaced rec.frame_period rec.next_frame_time (frames n calls)

module _ {T : Types} (R : Rendering T) (n : Name) where
  -- A recording that is held after a command was held before with the same frames, or is new.
  do_command-frames :
      (c : Command T) (m : Manager T) (rec : Recording T)
      → find n (do_command R c m).recordings ≡ some rec
      → ((find n m.recordings ≡ some rec) × (frames n (do_command R c m).calls ≡ frames n m.calls))
        ⊎ (frames n (do_command R c m).calls ≡ [])
  unfolding do_command
  do_command-frames (k_start name pose output config) m rec held =
      ground
        (arith, name_beq_iff name n, find-insert name n (new_recording output config) m.recordings)
  do_command-frames (k_update_pose name pose) m rec held = ground arith
  do_command-frames (k_stop name) m rec held =
      ground (arith, name_beq_iff name n, find-erase name n m.recordings)

  do_command-IsPaced :
      (c : Command T) (m : Manager T)
      → IsPaced n m.recordings m.calls
      → IsPaced n (do_command R c m).recordings (do_command R c m).calls
  do_command-IsPaced c m h rec held = elim (do_command-frames c m rec held) [
    | inl (before, same) ↦ rw same (h rec before)
    | inr fresh ↦ rw fresh tt
  ]

  do_command-IsUnique :
      (c : Command T) (m : Manager T)
      → IsUnique m.recordings
      → IsUnique (do_command R c m).recordings
  do_command-IsUnique c m u = go (do_command_cases R m c)
    where
      go :
          (name : Name) × Changed name m.recordings (do_command R c m).recordings
          → IsUnique (do_command R c m).recordings
      go (name, inl e) = rw e u
      go (name, inr (inl (output, config, e))) =
          rw e (insert-IsUnique name (new_recording output config) m.recordings u)
      go (name, inr (inr e)) = rw e (erase-IsUnique name m.recordings u)

  do_commands-IsPaced :
      (cs : List (Command T)) (m : Manager T)
      → IsUnique m.recordings
      → IsPaced n m.recordings m.calls
      → IsUnique (do_commands R cs m).recordings
        × IsPaced n (do_commands R cs m).recordings (do_commands R cs m).calls
  unfolding do_commands
  do_commands-IsPaced [] m u h = (u, h)
  do_commands-IsPaced (c ∷ cs) m u h =
      do_commands-IsPaced cs (do_command R c m) (do_command-IsUnique c m u)
        (do_command-IsPaced c m h)

  render_one-frames :
      (t : ℕ) (name : Name) (rec : Recording T) (calls : List (Call T))
      → name == n ≡ false
      → frames n (render_one R t name rec calls).1 ≡ frames n calls
  unfolding render_one
  render_one-frames t name rec calls h = ground arith

  render_one-IsPaced :
      (t : ℕ) (name : Name) (rec : Recording T) (calls : List (Call T))
      → name == n ≡ true
      → Spaced rec.frame_period rec.next_frame_time (frames n calls)
      → let (rec', calls') = render_one R t name rec calls in
        Spaced rec'.frame_period rec'.next_frame_time (frames n calls')
  unfolding render_one
  render_one-IsPaced t name rec calls e h =
      ground (arith, Spaced-mono rec.frame_period rec.next_frame_time t (frames n calls))

  render_all-skips :
      (t : ℕ) (recs : Map Name (Recording T)) (calls : List (Call T))
      → contains n recs ≡ false
      → frames n (render_all R t recs calls).1 ≡ frames n calls
  unfolding render_all find
  render_all-skips t [] calls h = refl
  render_all-skips t ((name, rec) ∷ recs) calls h = ground (
    arith,
    render_one-frames t name rec calls,
    render_all-skips t recs (render_one R t name rec calls).1,
  )

  render_all-contains :
      (t : ℕ) (recs : Map Name (Recording T)) (calls : List (Call T)) (k : Name)
      → contains k (render_all R t recs calls).0 ≡ contains k recs
  unfolding render_all find
  render_all-contains t [] calls k = refl
  render_all-contains t ((name, rec) ∷ recs) calls k =
      ground (arith, render_all-contains t recs (render_one R t name rec calls).1 k)

  render_all-IsUnique :
      (t : ℕ) (recs : Map Name (Recording T)) (calls : List (Call T))
      → IsUnique recs
      → IsUnique (render_all R t recs calls).0
  unfolding render_all
  render_all-IsUnique t [] calls u = tt
  render_all-IsUnique t ((name, rec) ∷ recs) calls u = (
    render_all-contains t recs (render_one R t name rec calls).1 name ∙ u.0,
    render_all-IsUnique t recs (render_one R t name rec calls).1 u.1,
  )

  render_all-IsPaced :
      (t : ℕ) (recs : Map Name (Recording T)) (calls : List (Call T))
      → IsUnique recs
      → IsPaced n recs calls
      → IsPaced n (render_all R t recs calls).0 (render_all R t recs calls).1
  unfolding render_all find
  render_all-IsPaced t [] calls u h r held = h r held
  render_all-IsPaced t ((name, rec) ∷ recs) calls u h r held = elim (Bool-cases (name == n)) [
    | inl here ↦ ground (
      arith,
      h rec,
      render_one-IsPaced t name rec calls here,
      ap (λ k. contains k recs) ((name_beq_iff name n).0 here),
      render_all-skips t recs (render_one R t name rec calls).1,
    )
    | inr other ↦
        render_all-IsPaced t recs (render_one R t name rec calls).1 u.1
          (λ q later. ground (arith, h q, render_one-frames t name rec calls other)) r
          (ground arith)
  ]

  -- Every recording that is held keeps its pace, and no name has two recordings.
  abbrev Invariant : Manager T → Type 0
  Invariant m = IsUnique m.recordings × IsPaced n m.recordings m.calls

  render_frames-Invariant :
      (t : ℕ) (m : Manager T)
      → Invariant m
      → Invariant (refresh_next_frame_hint (render_frames R t m))
  unfolding refresh_next_frame_hint render_frames
  render_frames-Invariant t m (u, h) =
      (render_all-IsUnique t m.recordings m.calls u, render_all-IsPaced t m.recordings m.calls u h)

  on_render-Invariant : (t : ℕ) (m : Manager T) → Invariant m → Invariant (on_render R t m)
  unfolding process_commands
  on_render-Invariant t m (u, h) = elim (Bool-cases m.scene) [
    | inl there ↦ rw (on_render_scene R t m there) (
        render_frames-Invariant t (process_commands R m)
          (do_commands-IsPaced m.commands (record m { commands = []; pending_commands = 0 }) u h))
    | inr missing ↦ rw (on_render_no_scene R t m missing) (u, h)
  ]

  stop_all-Invariant :
      (names : List Name) (m : Manager T) → Invariant m → Invariant (stop_all R names m)
  unfolding stop_all do_command
  stop_all-Invariant [] m h = h
  stop_all-Invariant (name ∷ names) m (u, h) =
      stop_all-Invariant names (do_stop R name m)
        (do_command-IsUnique (k_stop name) m u, do_command-IsPaced (k_stop name) m h)

  Invariant-keep :
      (m k : Manager T)
      → (k.recordings ≡ m.recordings) × (k.calls ≡ m.calls)
      → Invariant m
      → Invariant k
  Invariant-keep m k (r, c) h = rw (r, c) h

  apply-Invariant : (op : Op T) (m : Manager T) → Invariant m → Invariant (apply R op m)
  unfolding apply start_recording stop_recording update_recording_cam_pos set_scene
  apply-Invariant (sets_scene b) m h = h
  apply-Invariant (starts name pose output config) m h =
      Invariant-keep m (start_recording name pose output config m).1 (ground arith) h
  apply-Invariant (updates name pose) m h =
      Invariant-keep m (update_recording_cam_pos name pose m).1 (ground arith) h
  apply-Invariant (stops name) m h = Invariant-keep m (stop_recording name m).1 (ground arith) h
  apply-Invariant (renders t) m h = on_render-Invariant t m h
  apply-Invariant shuts_down m h =
      unfold shutdown refresh_next_frame_hint in
      stop_all-Invariant (recording_names m.recordings) m h

  run-Invariant : (ops : List (Op T)) (m : Manager T) → Invariant m → Invariant (run R ops m)
  unfolding run
  run-Invariant [] m h = h
  run-Invariant (op ∷ ops) m h = run-Invariant ops (apply R op m) (apply-Invariant op m h)

  initial-Invariant : Invariant (initial {T = T})
  initial-Invariant = unfold find in (tt, λ rec e. cc)

  -- After any history of calls, the frames of a recording that is held are at least its frame
  -- period apart, and the next one is not taken before a frame period has passed since the last.
  pub frames-run :
      (ops : List (Op T)) (rec : Recording T)
      → find n (run R ops initial).recordings ≡ some rec
      → Spaced rec.frame_period rec.next_frame_time (frames n (run R ops initial).calls)
  frames-run ops = (run-Invariant ops initial initial-Invariant).1
