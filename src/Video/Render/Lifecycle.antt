-- ===== src/Video/Render/Lifecycle.antt =====
-- The lifecycle of a recording: what the locked state of a name says of the recordings that the
-- render thread holds and of the requests that wait.
use gz_drl.Base.{
  ℕ, ◌≡◌, refl, Bool, true, false, ◌||◌, List, [], ◌∷◌, Option, none, some, arith, Name,
  if◌then◌else◌, name_eq, ◌==◌, name_beq_iff,
}
use gz_drl.Base.Map.{Map, find, contains, find-insert, find-erase}
use gz_drl.Video.Defs.{
  Types, State, k_none, k_active, k_queued, CameraConfig, Command, k_start, k_update_pose, k_stop,
  Call, Rendering, Recording, Manager, recording_state,
}
use gz_drl.Video.Render.{
  on_render_scene, new_recording, do_start, do_stop, do_command, do_commands, process_commands,
  render_one, render_all, render_frames, on_render, refresh_next_frame_hint,
}

abbrev pub is_active : Option State → Bool
is_active none = false
is_active (some k_none) = false
is_active (some k_queued) = false
is_active (some k_active) = true

abbrev pub is_queued : Option State → Bool
is_queued none = false
is_queued (some k_none) = false
is_queued (some k_queued) = true
is_queued (some k_active) = false

-- A start request for the name waits.
abbrev pub has_start : {T : Types} → Name → List (Command T) → Bool
has_start n [] = false
has_start n (k_start name pose output config ∷ cs) = name == n || has_start n cs
has_start n (k_update_pose name pose ∷ cs) = has_start n cs
has_start n (k_stop name ∷ cs) = has_start n cs

-- A name is active exactly when the render thread holds its recording, and queued only while a
-- start request for it waits.
abbrev pub Synced : {T : Types} → Name → List (Command T) → Manager T → Type 0
Synced n cs m =
    (contains n m.recordings ≡ is_active (find n m.states))
    × (is_queued (find n m.states) ≡ true → has_start n cs ≡ true)

module _ {T : Types} (R : Rendering T) (n : Name) where
  do_start-Synced :
      (name : Name) (pose : T.Pose) (output : Name) (config : CameraConfig T)
      (cs : List (Command T)) (m : Manager T)
      → Synced n (k_start name pose output config ∷ cs) m
      → Synced n cs (do_start R name pose output config m)
  unfolding do_start
  do_start-Synced name pose output config cs m h = ground (
    arith,
    name_beq_iff name n,
    find-erase name n m.states,
    find-insert name n k_active m.states,
    find-insert name n (new_recording output config) m.recordings,
  )

  pub do_stop-Synced :
      (name : Name) (cs : List (Command T)) (m : Manager T)
      → Synced n cs m
      → Synced n cs (do_stop R name m)
  unfolding do_stop
  do_stop-Synced name cs m h =
      ground
        (arith, name_beq_iff name n, find-erase name n m.states, find-erase name n m.recordings)

  pub do_command-Synced :
      (c : Command T) (cs : List (Command T)) (m : Manager T)
      → Synced n (c ∷ cs) m
      → Synced n cs (do_command R c m)
  unfolding do_command
  do_command-Synced (k_start name pose output config) cs m h =
      do_start-Synced name pose output config cs m h
  do_command-Synced (k_update_pose name pose) cs m h = ground arith
  do_command-Synced (k_stop name) cs m h = do_stop-Synced name cs m h

  do_commands-Synced :
      (cs : List (Command T)) (m : Manager T) → Synced n cs m → Synced n [] (do_commands R cs m)
  unfolding do_commands
  do_commands-Synced [] m h = h
  do_commands-Synced (c ∷ cs) m h =
      do_commands-Synced cs (do_command R c m) (do_command-Synced c cs m h)

  pub do_command-commands :
      (c : Command T) (m : Manager T)
      → ((do_command R c m).commands ≡ m.commands)
        × ((do_command R c m).pending_commands ≡ m.pending_commands)
        × ((do_command R c m).scene ≡ m.scene)
  unfolding do_command
  do_command-commands (k_start name pose output config) m = ground arith
  do_command-commands (k_update_pose name pose) m = ground arith
  do_command-commands (k_stop name) m = ground arith

  pub do_commands-commands :
      (cs : List (Command T)) (m : Manager T)
      → ((do_commands R cs m).commands ≡ m.commands)
        × ((do_commands R cs m).pending_commands ≡ m.pending_commands)
        × ((do_commands R cs m).scene ≡ m.scene)
  unfolding do_commands
  do_commands-commands [] m = (refl, refl, refl)
  do_commands-commands (c ∷ cs) m =
      ground (arith, do_commands-commands cs (do_command R c m), do_command-commands c m)

  render_all-contains :
      (t : ℕ) (recs : Map Name (Recording T)) (calls : List (Call T))
      → contains n (render_all R t recs calls).0 ≡ contains n recs
  unfolding render_all find
  render_all-contains t [] calls = refl
  render_all-contains t ((name, rec) ∷ recs) calls =
      ground (arith, render_all-contains t recs (render_one R t name rec calls).1)

  pub render_frames-Synced :
      (t : ℕ) (cs : List (Command T)) (m : Manager T)
      → Synced n cs m
      → Synced n cs (refresh_next_frame_hint (render_frames R t m))
  unfolding refresh_next_frame_hint render_frames
  render_frames-Synced t cs m h = ground (arith, render_all-contains t m.recordings m.calls)

  pub on_render-Synced :
      (t : ℕ) (m : Manager T)
      → m.scene ≡ true
      → Synced n m.commands m
      → Synced n [] (on_render R t m)
  unfolding process_commands
  on_render-Synced t m scene h = rw (on_render_scene R t m scene) (
      render_frames-Synced t [] (process_commands R m)
        (do_commands-Synced m.commands (record m { commands = []; pending_commands = 0 }) h))

  -- After a render with a scene, a name is active exactly if the render thread holds its recording,
  -- and no name is queued any more; before it, the recorder's states must fit its recordings and
  -- its waiting requests.
  pub on_render-recording_state :
      (t : ℕ) (m : Manager T)
      → m.scene ≡ true
      → Synced n m.commands m
      → recording_state n (on_render R t m)
        ≡ (if contains n (on_render R t m).recordings then k_active else k_none)
  unfolding recording_state
  on_render-recording_state t m scene h = ground (arith, on_render-Synced t m scene h)

  pub on_render-same_scene :
      (t : ℕ) (m : Manager T) → m.scene ≡ true → (on_render R t m).scene ≡ true
  unfolding process_commands render_frames refresh_next_frame_hint
  on_render-same_scene t m scene = rw (on_render_scene R t m scene) (
      ground (
        arith,
        scene,
        do_commands-commands m.commands (record m { commands = []; pending_commands = 0 }),
      ))
