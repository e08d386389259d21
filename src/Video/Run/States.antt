-- ===== src/Video/Run/States.antt =====
-- The states of the names, after histories of calls.
use gz_drl.Base.{
  ℕ, ◌≡◌, refl, true, List, [], ◌∷◌, arith, Name, if◌then◌else◌, inl, inr, Bool-cases, name_eq,
  name_beq_iff,
}
use gz_drl.Base.Map.{find, contains, find-insert}
use gz_drl.Video.Defs.{
  Types, k_none, k_active, k_queued, Command, k_start, k_update_pose, k_stop, Rendering, Manager,
  initial, set_scene, start_recording, stop_recording, update_recording_cam_pos, recording_state,
}
use gz_drl.Video.Render.{
  do_stop, on_render, on_render_no_scene, refresh_next_frame_hint, shutdown, stop_all,
  recording_names,
}
use gz_drl.Video.Render.Lifecycle.{
  Synced, do_stop-Synced, on_render-Synced, on_render-recording_state,
}
use gz_drl.Video.Threads.{has_start-append}
use gz_drl.Video.Run.{Op, sets_scene, starts, updates, stops, renders, shuts_down, apply, run}

module _ {T : Types} (R : Rendering T) (n : Name) where
  -- What fits no waiting request fits all.
  none_waits : (cs : List (Command T)) (m : Manager T) → Synced n [] m → Synced n cs m
  none_waits cs m h = ground (arith, h)

  stop_all-Synced :
      (names : List Name) (cs : List (Command T)) (m : Manager T)
      → Synced n cs m
      → Synced n cs (stop_all R names m)
  unfolding stop_all
  stop_all-Synced [] cs m h = h
  stop_all-Synced (name ∷ names) cs m h =
      stop_all-Synced names cs _ (do_stop-Synced R n name cs m h)

  stop_all-commands :
      (names : List Name) (m : Manager T) → (stop_all R names m).commands ≡ m.commands
  unfolding stop_all
  stop_all-commands [] m = refl
  stop_all-commands (name ∷ names) m = ground (arith, stop_all-commands names (do_stop R name m))

  apply-Synced :
      (op : Op T) (m : Manager T)
      → Synced n m.commands m
      → Synced n (apply R op m).commands (apply R op m)
  unfolding apply start_recording stop_recording update_recording_cam_pos set_scene shutdown
      refresh_next_frame_hint
  apply-Synced (sets_scene b) m h = h
  apply-Synced (starts name pose output config) m h = ground (
    arith,
    name_beq_iff name n,
    has_start-append n m.commands (k_start name pose output config ∷ []),
    find-insert name n k_queued m.states,
  )
  apply-Synced (updates name pose) m h =
      ground (arith, has_start-append n m.commands (k_update_pose name pose ∷ []))
  apply-Synced (stops name) m h = ground (arith, has_start-append n m.commands (k_stop name ∷ []))
  apply-Synced (renders t) m h = elim (Bool-cases m.scene) [
    | inl there ↦
        none_waits (on_render R t m).commands (on_render R t m) (on_render-Synced R n t m there h)
    | inr missing ↦ rw (on_render_no_scene R t m missing) h
  ]
  apply-Synced shuts_down m h =
      let names = recording_names m.recordings in
      rw (stop_all-commands names m) (stop_all-Synced names m.commands m h)

  run-Synced :
      (ops : List (Op T)) (m : Manager T)
      → Synced n m.commands m
      → Synced n (run R ops m).commands (run R ops m)
  unfolding run
  run-Synced [] m h = h
  run-Synced (op ∷ ops) m h = run-Synced ops (apply R op m) (apply-Synced op m h)

  -- After any history of calls and a render with a scene behind it, a name is active exactly if the
  -- render thread holds its recording, and no name is queued any more.
  pub recording_state-on_render-run :
      (ops : List (Op T)) (t : ℕ)
      → (run R ops initial).scene ≡ true
      → (let m = on_render R t (run R ops initial) in
          recording_state n m ≡ (if contains n m.recordings then k_active else k_none))
  recording_state-on_render-run ops t scene =
      let fresh : Synced {T = T} n [] initial = unfold find in (refl, λ e. cc) in
      on_render-recording_state R n t (run R ops initial) scene (run-Synced ops initial fresh)
