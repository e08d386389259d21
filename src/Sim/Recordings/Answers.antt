-- ===== src/Sim/Recordings/Answers.antt =====
-- When a wait for the render thread ends, and what requests to the recorder a render answers:
-- GzDRL/src/rl_server.cc with GzDRL/src/sensor/video_recording_manager.cc.
use gz_drl.Base.{
  ℕ, ◌≡◌, refl, sym, ap, subst, ◌∙◌, ◌⊎◌, inl, inr, Bool, true, false, ◌||◌, some, List, [], ◌∷◌,
  arith, Bool-cases, All, nat_eq, name_eq, both_eq, ok,
}
use gz_drl.Video.Defs.{Types, Rendering, Manager, set_scene}
use gz_drl.Video.Render.{
  on_render, on_render_scene, on_render_no_scene, process_commands, render_frames,
  refresh_next_frame_hint,
}
use gz_drl.Video.Render.Lifecycle.{do_commands-commands}
use gz_drl.Sim.Recordings.{RenderStep, gets_scene, renders, Round, play, wait_while}

-- A render behind the scene, which may be there from the start.
abbrev pub renders_with : Bool → List RenderStep → Bool
renders_with s [] = false
renders_with s (gets_scene ∷ steps) = renders_with true steps
renders_with s (renders t ∷ steps) = s || renders_with s steps

abbrev pub scene_after : Bool → List RenderStep → Bool
scene_after s [] = s
scene_after s (gets_scene ∷ steps) = scene_after true steps
scene_after s (renders t ∷ steps) = scene_after s steps

-- The rounds have a render with a scene.
abbrev pub answers_in : Bool → List Round → Bool
answers_in s [] = false
answers_in s (r ∷ rounds) = renders_with s r.steps || answers_in (scene_after s r.steps) rounds

module _ {T : Types} (R : Rendering T) where
  pub on_render-kept :
      (t : ℕ) (m : Manager T)
      → m.scene ≡ true
      → ((on_render R t m).commands ≡ []) × ((on_render R t m).scene ≡ true)
  unfolding process_commands render_frames refresh_next_frame_hint
  on_render-kept t m scene =
      let k =
        do_commands-commands R [] m.commands (record m { commands = []; pending_commands = 0 }) in
      rw (on_render_scene R t m scene) (k.0, k.2 ∙ scene)

  on_render_same_scene : (t : ℕ) (m : Manager T) → (on_render R t m).scene ≡ m.scene
  on_render_same_scene t m = elim (Bool-cases m.scene) [
    | inl e ↦ (on_render-kept t m e).1 ∙ sym e
    | inr e ↦ ap (λ k. k.scene) (on_render_no_scene R t m e)
  ]

  play-scene :
      (steps : List RenderStep) (m : Manager T) → (play R steps m).scene ≡ scene_after m.scene steps
  unfolding play set_scene
  play-scene [] m = refl
  play-scene (gets_scene ∷ steps) m = play-scene steps (set_scene true m)
  play-scene (renders t ∷ steps) m =
      play-scene steps (on_render R t m) ∙ ap (λ s. scene_after s steps) (on_render_same_scene t m)

-- A request that a render with a scene answers: what holds before, and what holds behind it.
pub record Answering {T : Types} (R : Rendering T) (Before Done : Manager T → Type 0) : Type 0 where
  pub before_scene : (m : Manager T) → Before m → Before (set_scene true m)
  pub done_scene : (m : Manager T) → Done m → Done (set_scene true m)
  pub answered : (t : ℕ) (m : Manager T) → m.scene ≡ true → Before m → Done (on_render R t m)
  pub stays : (t : ℕ) (m : Manager T) → m.scene ≡ true → Done m → Done (on_render R t m)

module _ {T : Types} (R : Rendering T) (Before Done : Manager T → Type 0)
    (a : Answering R Before Done) where
  play-Done : (steps : List RenderStep) (m : Manager T) → Done m → Done (play R steps m)
  unfolding play
  play-Done [] m d = d
  play-Done (gets_scene ∷ steps) m d = play-Done steps (set_scene true m) (a.done_scene m d)
  play-Done (renders t ∷ steps) m d = elim (Bool-cases m.scene) [
    | inl e ↦ play-Done steps (on_render R t m) (a.stays t m e d)
    | inr e ↦ play-Done steps (on_render R t m) (subst Done (sym (on_render_no_scene R t m e)) d)
  ]

  play-Before :
      (steps : List RenderStep) (m : Manager T)
      → Before m
      → Done (play R steps m) ⊎ (Before (play R steps m) × (renders_with m.scene steps ≡ false))
  unfolding play set_scene
  play-Before [] m b = inr (b, refl)
  play-Before (gets_scene ∷ steps) m b = play-Before steps (set_scene true m) (a.before_scene m b)
  play-Before (renders t ∷ steps) m b = elim (Bool-cases m.scene) [
    | inl e ↦ inl (play-Done steps (on_render R t m) (a.answered t m e b))
    | inr e ↦
        let same = on_render_no_scene R t m e in
        elim (play-Before steps m b) [
          | inl d ↦ inl (subst (λ k. Done (play R steps k)) (sym same) d)
          | inr (b', q) ↦
              inr (subst (λ k. Before (play R steps k)) (sym same) b', ground (arith, e, q))
        ]
  ]

  -- The request has been answered, or a render of the rounds is to answer it.
  abbrev pub Pending : List Round → Manager T → Type 0
  Pending rounds m = Done m ⊎ (Before m × (answers_in m.scene rounds ≡ true))

  round-Pending :
      (r : Round) (rounds : List Round) (m : Manager T)
      → Before m
      → answers_in m.scene (r ∷ rounds) ≡ true
      → Pending rounds (play R r.steps m)
  round-Pending r rounds m b e = elim (play-Before r.steps m b) [
    | inl d ↦ inl d
    | inr (b', none_yet) ↦ inr (b', ground (arith, e, none_yet, play-scene R r.steps m))
  ]

  -- Where a client is not busy any more behind the answer, rounds that are in time and of which one
  -- answers end its wait.
  pub wait_while-Pending :
      (busy : Manager T → Bool) (rounds : List Round) (m : Manager T)
      → ((k : Manager T) → Done k → busy k ≡ false)
      → All (λ r. r.late ≡ false) rounds
      → Pending rounds m
      → (m' : Manager T) × (wait_while R busy rounds m ≡ some (ok tt, m'))
        × (busy m' ≡ false)
        × (Before m' ⊎ Done m')
  unfolding wait_while
  wait_while-Pending busy [] m idle in_time (inl d) = (m, rw (idle m d) refl, idle m d, inr d)
  wait_while-Pending busy [] m idle in_time (inr (b, e)) = absurd (ground (arith, e))
  wait_while-Pending busy (r ∷ rounds) m idle in_time (inl d) =
      (m, rw (idle m d) refl, idle m d, inr d)
  wait_while-Pending busy (r ∷ rounds) m idle (in_time, later) (inr (b, e)) =
      elim (Bool-cases (busy m)) [
        | inr free ↦ (m, rw free refl, free, inl b)
        | inl waits ↦
            let (m', ends, free, state) =
              wait_while-Pending busy rounds (play R r.steps m) idle later
                (round-Pending r rounds m b e) in
            let again : wait_while R busy (r ∷ rounds) m
                ≡ wait_while R busy rounds (play R r.steps m) =
              rw (waits, in_time) refl in
            (m', again ∙ ends, free, state)
      ]
