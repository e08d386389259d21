-- ===== src/Sim/Recordings/Ends.antt =====
-- `start_camera_recording` and `stop_camera_recording` of `DRLServer` in GzDRL/src/rl_server.cc end.
use gz_drl.Base.{
  ℕ, ◌≡◌, refl, sym, ap, subst, ◌∙◌, ◌⊎◌, inl, inr, true, false, not, none, some, List, [], ◌∷◌,
  ◌++◌, arith, if◌then◌else◌, All, Name, name_beq_iff, is_empty, nat_eq, name_eq, both_eq,
  runtime_error, ok, throws,
}
use gz_drl.Base.Map.{find, contains, find-erase, find-insert}
use gz_drl.Video.Defs.{
  Types, State, k_none, k_queued, k_active, CameraConfig, Command, k_start, k_stop, Rendering,
  Manager, set_scene, reserve, enqueue, start_recording, stop_recording, recording_state,
  clear_state,
}
use gz_drl.Video.Render.{
  on_render, on_render_scene, do_stop, do_command, do_commands, process_commands, render_frames,
  refresh_next_frame_hint,
}
use gz_drl.Video.Render.Lifecycle.{Synced, on_render-Synced}
use gz_drl.Video.Threads.{has_start-append}
use gz_drl.Sim.Recordings.{
  Round, wait_while, is_k_none, camera_recording_queued, camera_recording_busy, check_started,
  start_camera_recording, stop_camera_recording,
}
use gz_drl.Sim.Recordings.Answers.{answers_in, on_render-kept, Answering, wait_while-Pending}

module _ {T : Types} (R : Rendering T) (n : Name) where
  -- The states fit the recordings and the requests that wait.
  abbrev InStep : Manager T → Type 0
  InStep m = Synced n m.commands m

  abbrev Served : Manager T → Type 0
  Served m = (m.commands ≡ []) × Synced n [] m

  start-Answering : Answering R InStep Served
  unfolding set_scene
  start-Answering = record {
    before_scene = λ m h. h;
    done_scene = λ m h. h;
    answered = λ t m scene h. ((on_render-kept R t m scene).0, on_render-Synced R n t m scene h);
    stays = λ t m scene (e, h). (
      (on_render-kept R t m scene).0,
      on_render-Synced R n t m scene (subst (λ cs. Synced n cs m) (sym e) h),
    );
  }

  start_recording-InStep :
      (pose : T.Pose) (output : Name) (config : CameraConfig T) (m : Manager T)
      → InStep m
      → InStep (start_recording n pose output config m).1
  unfolding start_recording reserve enqueue
  start_recording-InStep pose output config m h = ground (
    arith,
    find-insert n n k_queued m.states,
    name_beq_iff n n,
    has_start-append n m.commands (k_start n pose output config ∷ []),
  )

  Served-idle : (m : Manager T) → Served m → camera_recording_queued n m ≡ false
  unfolding camera_recording_queued recording_state
  Served-idle m (e, h) = ground (arith, h)

  start_recording-scene :
      (pose : T.Pose) (output : Name) (config : CameraConfig T) (m : Manager T)
      → (start_recording n pose output config m).1.scene ≡ m.scene
  unfolding start_recording reserve enqueue
  start_recording-scene pose output config m = ground arith

  -- A name that is not queued is active exactly if it is held.
  held_active :
      (cs : List (Command T)) (m : Manager T)
      → Synced n cs m
      → camera_recording_queued n m ≡ false
      → (recording_state n m ≡ (if contains n m.recordings then k_active else k_none))
        × (camera_recording_busy n m ≡ contains n m.recordings)
  unfolding camera_recording_queued camera_recording_busy recording_state
  held_active cs m h free = ground (arith, h, free)

  checked :
      (m : Manager T)
      → camera_recording_busy n m ≡ contains n m.recordings
      → check_started (camera_recording_busy n) (some (ok tt, m))
        ≡ some (if contains n m.recordings then ok tt else throws runtime_error, m)
  checked m e = ground (arith, e)

  request-Synced : (m : Manager T) → InStep m ⊎ Served m → (cs : List (Command T)) × Synced n cs m
  request-Synced m (inl h) = (m.commands, h)
  request-Synced m (inr (e, h)) = ([], h)

  -- Where the recorder is in step, and one of the rounds, which are in time, renders with the scene,
  -- a start returns if the render thread then holds the recording, which is active, and throws
  -- a runtime_error if it does not.
  pub start_camera_recording-ends :
      (pose : T.Pose) (output : Name) (config : CameraConfig T) (rounds : List Round)
      (m : Manager T)
      → Synced n m.commands m
      → All (λ r. r.late ≡ false) rounds
      → answers_in m.scene rounds ≡ true
      → (m' : Manager T) × (start_camera_recording R true n pose output config rounds m
          ≡ some (if contains n m'.recordings then ok tt else throws runtime_error, m'))
        × (recording_state n m' ≡ (if contains n m'.recordings then k_active else k_none))
  unfolding start_camera_recording
  start_camera_recording-ends pose output config rounds m h in_time soon =
      let m0 = (start_recording n pose output config m).1 in
      let (m', ends, free, state) =
        wait_while-Pending R InStep Served start-Answering (camera_recording_queued n) rounds m0
          Served-idle in_time
          (inr (
            start_recording-InStep pose output config m h,
            ap (λ b. answers_in b rounds) (start_recording-scene pose output config m) ∙ soon,
          )) in
      let (cs, synced) = request-Synced m' state in
      let (active, busy) = held_active cs m' synced free in
      (m', ap (check_started (camera_recording_busy n)) ends ∙ checked m' busy, active)

module _ {T : Types} (R : Rendering T) (n : Name) where
  -- The last request is to stop the name.
  abbrev Stopping : Manager T → Type 0
  Stopping m = (cs : List (Command T)) × (m.commands ≡ cs ++ k_stop n ∷ [])

  abbrev Gone : Manager T → Type 0
  Gone m = (m.commands ≡ []) × (find n m.states ≡ none)

  do_stop-find : (m : Manager T) → find n (do_stop R n m).states ≡ none
  unfolding do_stop clear_state
  do_stop-find m = ground (arith, find-erase n n m.states, name_beq_iff n n)

  do_commands-find :
      (cs : List (Command T)) (m : Manager T)
      → find n (do_commands R (cs ++ k_stop n ∷ []) m).states ≡ none
  unfolding do_commands do_command
  do_commands-find [] m = do_stop-find m
  do_commands-find (c ∷ cs) m = do_commands-find cs (do_command R c m)

  render-find :
      (t : ℕ) (m : Manager T)
      → m.scene ≡ true
      → find n (on_render R t m).states
        ≡ find n
            (do_commands R m.commands (record m { commands = []; pending_commands = 0 })).states
  unfolding process_commands render_frames refresh_next_frame_hint
  render-find t m scene = ap (λ k. find n k.states) (on_render_scene R t m scene)

  stop-Answering : Answering R Stopping Gone
  unfolding set_scene do_commands
  stop-Answering = record {
    before_scene = λ m h. h;
    done_scene = λ m h. h;
    answered = λ t m scene (cs, e). (
      (on_render-kept R t m scene).0,
      render-find t m scene
          ∙ ap
              (λ l.
                find n (do_commands R l (record m { commands = []; pending_commands = 0 })).states)
              e
          ∙ do_commands-find cs (record m { commands = []; pending_commands = 0 }),
    );
    stays = λ t m scene (e, gone). (
      (on_render-kept R t m scene).0,
      render-find t m scene
          ∙ ap
              (λ l.
                find n (do_commands R l (record m { commands = []; pending_commands = 0 })).states)
              e
          ∙ gone,
    );
  }

  Gone-idle : (m : Manager T) → Gone m → camera_recording_busy n m ≡ false
  unfolding camera_recording_busy recording_state
  Gone-idle m (e, gone) = ground (arith, gone)

  idle-k_none : (m : Manager T) → camera_recording_busy n m ≡ false → recording_state n m ≡ k_none
  unfolding camera_recording_busy
  idle-k_none m h = go (recording_state n m) h
    where
      go : (s : State) → not (is_k_none s) ≡ false → s ≡ k_none
      go k_none e = refl
      go k_queued e = ground (arith, e)
      go k_active e = ground (arith, e)

  -- Where one of the rounds, which are in time, renders with the scene, a stop of a name that is not
  -- empty returns, whatever was asked before, and the name has no recording any more.
  pub stop_camera_recording-ends :
      (rounds : List Round) (m : Manager T)
      → is_empty n ≡ false
      → All (λ r. r.late ≡ false) rounds
      → answers_in m.scene rounds ≡ true
      → (m' : Manager T) × (stop_camera_recording R true n rounds m ≡ some (ok tt, m'))
        × (recording_state n m' ≡ k_none)
  unfolding stop_camera_recording stop_recording enqueue
  stop_camera_recording-ends rounds m named in_time soon =
      let m0 : Manager T = enqueue (k_stop n) m in
      let asked : (stop_recording n m).1 ≡ m0 = rw named refl in
      let (m', ends, free, state) =
        wait_while-Pending R Stopping Gone stop-Answering (camera_recording_busy n) rounds m0
          Gone-idle in_time (inr ((m.commands, refl), soon)) in
      (m', ap (wait_while R (camera_recording_busy n) rounds) asked ∙ ends, idle-k_none m' free)
