-- ===== src/Video/Run/Leaks.antt =====
-- No history of calls leaves a camera in the scene that the recorder does not hold.
use gz_drl.Base.{
  ◌≡◌, refl, ◌+◌, ◌⊎◌, inl, inr, true, false, Bool-cases, All, List, [], ◌∷◌, none, arith, Name,
  if◌then◌else◌, name_eq,
}
use gz_drl.Base.Map.{find, contains}
use gz_drl.Video.Defs.{
  Types, Rendering, Manager, initial, set_scene, start_recording, stop_recording,
  update_recording_cam_pos,
}
use gz_drl.Video.Render.{shutdown, on_render_no_scene}
use gz_drl.Video.Render.Lifecycle.{on_render-same_scene}
use gz_drl.Video.Render.Cameras.{
  made, destroyed, Balanced, on_render-Balanced, shutdown-Balanced, shutdown-find,
}
use gz_drl.Video.Run.{Op, sets_scene, starts, updates, stops, renders, shuts_down, apply, run}

-- A call that takes no scene away.
abbrev pub KeepsScene : {T : Types} → Op T → Type 0
KeepsScene (sets_scene b) = b ≡ true
KeepsScene (starts name pose output config) = Unit
KeepsScene (updates name pose) = Unit
KeepsScene (stops name) = Unit
KeepsScene (renders t) = Unit
KeepsScene shuts_down = Unit

module _ {T : Types} (R : Rendering T) (n : Name) where
  apply-Balanced :
      (op : Op T) (m : Manager T)
      → Balanced n m.recordings m.calls
      → Balanced n (apply R op m).recordings (apply R op m).calls
  unfolding apply start_recording stop_recording update_recording_cam_pos set_scene
  apply-Balanced (sets_scene b) m h = h
  apply-Balanced (starts name pose output config) m h = ground arith
  apply-Balanced (updates name pose) m h = ground arith
  apply-Balanced (stops name) m h = ground arith
  apply-Balanced (renders t) m h = on_render-Balanced R n t m h
  apply-Balanced shuts_down m h = shutdown-Balanced R n m h

  run-Balanced :
      (ops : List (Op T)) (m : Manager T)
      → Balanced n m.recordings m.calls
      → Balanced n (run R ops m).recordings (run R ops m).calls
  unfolding run
  run-Balanced [] m h = h
  run-Balanced (op ∷ ops) m h = run-Balanced ops (apply R op m) (apply-Balanced op m h)

  initial-Balanced : Balanced n (initial {T = T}).recordings (initial {T = T}).calls
  initial-Balanced = unfold find in refl

  -- After any history of calls, the cameras made for a name outnumber those destroyed by one if the
  -- recording of that name is held, and by none otherwise.
  pub made-run :
      (ops : List (Op T))
      → made n (run R ops initial).calls
        ≡ destroyed n (run R ops initial).calls
          + (if contains n (run R ops initial).recordings then 1 else 0)
  made-run ops = run-Balanced ops initial initial-Balanced

  -- A recording is held only while there is a scene to destroy its camera in.
  HasScene : Manager T → Type 0
  HasScene m = (contains n m.recordings ≡ false) ⊎ (m.scene ≡ true)

  apply-HasScene :
      (op : Op T) (m : Manager T) → KeepsScene op → HasScene m → HasScene (apply R op m)
  unfolding apply start_recording stop_recording update_recording_cam_pos set_scene HasScene
  apply-HasScene (sets_scene b) m keeps h = inr keeps
  apply-HasScene (starts name pose output config) m keeps h = ground arith
  apply-HasScene (updates name pose) m keeps h = ground arith
  apply-HasScene (stops name) m keeps h = ground arith
  apply-HasScene (renders t) m keeps h = elim (Bool-cases m.scene) [
    | inl there ↦ inr (on_render-same_scene R n t m there)
    | inr missing ↦ rw (on_render_no_scene R t m missing) h
  ]
  apply-HasScene shuts_down m keeps h = inl (ground (arith, shutdown-find R n m))

  run-HasScene :
      (ops : List (Op T)) (m : Manager T) → All KeepsScene ops → HasScene m → HasScene (run R ops m)
  unfolding run
  run-HasScene [] m keeps h = h
  run-HasScene (op ∷ ops) m (keeps, more) h =
      run-HasScene ops (apply R op m) more (apply-HasScene op m keeps h)

  -- After any history of calls in which `SetScene` is given no null pointer, there is a scene
  -- wherever a recording is held, so that a shutdown can destroy its camera; the shutdown leaves no
  -- recording, and every camera that was made has been destroyed.
  pub shutdown-run :
      (ops : List (Op T))
      → All KeepsScene ops
      → let before = run R ops initial in
        let m = shutdown R before in
        ((contains n before.recordings ≡ false) ⊎ (before.scene ≡ true))
        × (find n m.recordings ≡ none)
        × (made n m.calls ≡ destroyed n m.calls)
  unfolding HasScene
  shutdown-run ops keeps =
      let before = run R ops initial in
      let started : HasScene initial = inl (unfold find in refl) in
      (
        run-HasScene ops initial keeps started,
        ground (arith, shutdown-find R n before),
        ground (arith, shutdown-find R n before, shutdown-Balanced R n before, made-run ops),
      )
