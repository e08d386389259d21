-- ===== src/Video/Run/Settled.antt =====
-- The bookkeeping that `RequiresRender` rests on is kept by every operation.
use gz_drl.Base.{
  ℕ, ◌≡◌, refl, true, false, List, [], ◌∷◌, arith, Name, length, inl, inr, Bool-cases, name_eq,
}
use gz_drl.Base.Map.{Map, All-insert, All-erase}
use gz_drl.Video.Defs.{
  Types, Command, k_stop, Call, Rendering, Recording, Manager, initial, set_scene, start_recording,
  stop_recording, update_recording_cam_pos, requires_render,
}
use gz_drl.Video.Render.{
  new_recording, do_command, do_commands, do_stop, process_commands, render_one, render_all,
  render_frames, on_render, on_render_scene, on_render_no_scene, refresh_hint,
  refresh_next_frame_hint, shutdown, stop_all, recording_names,
}
use gz_drl.Video.Render.Cases.{Changed, do_command_cases}
use gz_drl.Video.Render.Idle.{IsWarm, IsSettled, on_render-idle}
use gz_drl.Video.Render.Lifecycle.{do_command-commands}
use gz_drl.Video.Run.{Op, sets_scene, starts, updates, stops, renders, shuts_down, apply, run}

-- The counter of the queue, and the warm-ups.
abbrev IsCounted : {T : Types} → Manager T → Type 0
IsCounted m = (m.pending_commands ≡ length m.commands) × IsWarm m.recordings

module _ {T : Types} (R : Rendering T) where
  do_command-IsWarm :
      (c : Command T) (m : Manager T) → IsWarm m.recordings → IsWarm (do_command R c m).recordings
  do_command-IsWarm c m w = go (do_command_cases R m c)
    where
      go :
          (name : Name) × Changed name m.recordings (do_command R c m).recordings
          → IsWarm (do_command R c m).recordings
      go (name, inl e) = rw e w
      go (name, inr (inl (output, config, e))) = rw e (
          All-insert (λ p. p.1.warmup ≡ true → p.1.next_frame_time ≡ 0) name
            (new_recording output config) m.recordings (λ j. unfold new_recording in λ _. refl) w)
      go (name, inr (inr e)) =
          rw e (All-erase (λ p. p.1.warmup ≡ true → p.1.next_frame_time ≡ 0) name m.recordings w)

  do_command-IsCounted :
      (c : Command T) (m : Manager T) → IsCounted m → IsCounted (do_command R c m)
  do_command-IsCounted c m w = ground (arith, do_command-IsWarm c m, do_command-commands R [] c m)

  do_commands-IsCounted :
      (cs : List (Command T)) (m : Manager T) → IsCounted m → IsCounted (do_commands R cs m)
  unfolding do_commands
  do_commands-IsCounted [] m w = w
  do_commands-IsCounted (c ∷ cs) m w =
      do_commands-IsCounted cs (do_command R c m) (do_command-IsCounted c m w)

  render_all-IsWarm :
      (t : ℕ) (recs : Map Name (Recording T)) (calls : List (Call T))
      → IsWarm recs
      → IsWarm (render_all R t recs calls).0
  unfolding render_all
  render_all-IsWarm t [] calls w = tt
  render_all-IsWarm t ((name, rec) ∷ recs) calls w =
      ground (arith, render_all-IsWarm t recs (render_one R t name rec calls).1 w.1)

  stop_all-IsCounted :
      (names : List Name) (m : Manager T) → IsCounted m → IsCounted (stop_all R names m)
  unfolding stop_all do_command
  stop_all-IsCounted [] m w = w
  stop_all-IsCounted (name ∷ names) m w =
      stop_all-IsCounted names (do_stop R name m) (do_command-IsCounted (k_stop name) m w)

  refresh-IsSettled : (m : Manager T) → IsCounted m → IsSettled (refresh_next_frame_hint m)
  unfolding refresh_next_frame_hint
  refresh-IsSettled m w = record { counted = w.0; hinted = refl; warm = w.1 }

  on_render-IsSettled : (t : ℕ) (m : Manager T) → IsSettled m → IsSettled (on_render R t m)
  on_render-IsSettled t m s = elim (Bool-cases m.scene) [
    | inl there ↦ rw (on_render_scene R t m there) (
        refresh-IsSettled (render_frames R t (process_commands R m))
          (frames (process_commands R m) processed))
    | inr missing ↦ rw (on_render_no_scene R t m missing) s
  ]
    where
      processed : IsCounted (process_commands R m)
      processed =
          unfold process_commands in
          do_commands-IsCounted m.commands (record m { commands = []; pending_commands = 0 })
            (refl, s.warm)

      frames : (k : Manager T) → IsCounted k → IsCounted (render_frames R t k)
      frames k w = unfold render_frames in (w.0, render_all-IsWarm t k.recordings k.calls w.1)

  apply-IsSettled : (op : Op T) (m : Manager T) → IsSettled m → IsSettled (apply R op m)
  unfolding apply start_recording stop_recording update_recording_cam_pos set_scene
  apply-IsSettled (sets_scene b) m s = ground arith
  apply-IsSettled (starts name pose output config) m s = ground arith
  apply-IsSettled (updates name pose) m s = ground arith
  apply-IsSettled (stops name) m s = ground arith
  apply-IsSettled (renders t) m s = on_render-IsSettled t m s
  apply-IsSettled shuts_down m s =
      unfold shutdown in
      refresh-IsSettled (stop_all R (recording_names m.recordings) m)
        (stop_all-IsCounted (recording_names m.recordings) m (s.counted, s.warm))

  run-IsSettled : (ops : List (Op T)) (m : Manager T) → IsSettled m → IsSettled (run R ops m)
  unfolding run
  run-IsSettled [] m s = s
  run-IsSettled (op ∷ ops) m s = run-IsSettled ops (apply R op m) (apply-IsSettled op m s)

  initial-IsSettled : IsSettled (initial {T = T})
  initial-IsSettled = unfold refresh_hint in record { counted = refl; hinted = refl; warm = tt }

  -- After any history of calls: where `RequiresRender` says that no render is needed, `OnRender`
  -- would change nothing and call nothing.
  pub on_render-idle-run :
      (ops : List (Op T)) (t : ℕ)
      → requires_render t (run R ops initial) ≡ false
      → on_render R t (run R ops initial) ≡ run R ops initial
  on_render-idle-run ops t h =
      on_render-idle R t (run R ops initial) (run-IsSettled ops initial initial-IsSettled) h
