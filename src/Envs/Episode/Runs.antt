-- ===== src/Envs/Episode/Runs.antt =====
-- The episodes of a hover environment.
use gz_drl.Base.{
  ℕ, zero, suc, ◌≤◌, ◌≡◌, refl, sym, ap, subst, ◌∙◌, Bool, true, false, List, [], ◌∷◌, arith,
  if◌then◌else◌, nat_eq, name_eq, both_eq, ok,
}
use gz_drl.Base.Map.{find}
use gz_drl.Envs.Hover.{Processing, process_action}
use gz_drl.Envs.States.{state_key}
use gz_drl.Envs.Episode.{
  Task, Settings, HoverEnv, Answer, Request, force_reset, act, link_of, crashed, is_done,
  refresh_states, respawned, reset_env, drive, reward_with, step_env, serve_one,
}
use gz_drl.Envs.Episode.Answers.{
  measured, Known, Rests, Served, Shows, refresh_states-Known, write_obs-Served, is_done_room,
  check_crash_lem, checked, checked-Known,
}

module _ {P : Processing} (T : Task P) (S : Settings P) where
  reset_env-Served : (e : HoverEnv P T) → Served T S 0 (reset_env T S e)
  unfolding reset_env refresh_states respawned Known
  reset_env-Served e =
      write_obs-Served T S
        (record (refresh_states T S (respawned T S e)) {
          reward = T.nought;
          extra_reward_terms = T.nought;
        })
        refl (refresh_states-Known T S (respawned T S e))

  -- What the physics steps leave as it was, and that the states are those of the server.
  Drives : HoverEnv P T → HoverEnv P T → Type 0
  Drives e e' = (e'.done ≡ e.done) × (e'.current_step ≡ e.current_step) × Known T S e'

  drive-Drives :
      (n : ℕ) (cmd : List P.Float) (e : HoverEnv P T) → Known T S e → Drives e (drive T S n cmd e)
  unfolding drive Drives refresh_states
  drive-Drives zero cmd e known = (refl, refl, known)
  drive-Drives (suc n) cmd e known =
      let commanded = T.set_rotor_velocity_cmd S.model_name S.link_name cmd e.server in
      let driven = record e { server = T.run_once commanded } in
      drive-Drives n cmd (refresh_states T S driven) (refresh_states-Known T S driven)

  reward_with-Served :
      (e : HoverEnv P T)
      → e.done ≡ false
      → Known T S e
      → Served T S e.current_step
          (reward_with T S (find (state_key (link_of T S)) e.states.current_state) e)
  unfolding reward_with Known
  reward_with-Served e going known =
      subst (λ o. Served T S e.current_step (reward_with T S o e)) (sym known)
        (write_obs-Served T S
          (record e { reward = T.compute_reward e.processor.desired_hover_pos (measured T S e) })
          going known)

  step_env-Served :
      (action : List P.Float) (c : ℕ) (e : HoverEnv P T)
      → Rests T S false c e
      → Served T S (suc c) (step_env T S action e)
  unfolding step_env Rests Drives Known
  step_env-Served action c e (going, room, fine, known, is_c) =
      let (cmd, processor') = process_action action e.processor in
      let stepped = record e { current_step = suc e.current_step; processor = processor' } in
      let (same_done, same_step, known') =
        drive-Drives S.physics_steps_per_control cmd stepped known in
      let driven = drive T S S.physics_steps_per_control cmd stepped in
      subst
        (λ n. Served T S n (
          reward_with T S (find (state_key (link_of T S)) driven.states.current_state)
            (record driven { reward = T.nought })))
        (same_step ∙ ap suc is_c)
        (reward_with-Served (record driven { reward = T.nought }) (same_done ∙ going) known')

  -- The step of an answer: 0 where the request or the end of the episode before reset the
  -- environment, and one more than before where not.
  abbrev pub next_step : Request P → Bool → ℕ → ℕ
  next_step force_reset due c = 0
  next_step (act action) true c = 0
  next_step (act action) false c = suc c

  serve_one-Served :
      (q : Request P) (due : Bool) (c : ℕ) (e : HoverEnv P T)
      → Rests T S due c e
      → Served T S (next_step q due c) (serve_one T S q e)
  unfolding serve_one Rests
  serve_one-Served force_reset due c e rests = reset_env-Served e
  serve_one-Served (act action) true c e ended = rw ended (reset_env-Served (is_done T S e).1)
  serve_one-Served (act action) false c e (going, room, fine, known, is_c) =
      let test = is_done_room T S e going room ∙ check_crash_lem T S e known in
      let next =
        λ (r : Bool × HoverEnv P T). if r.0 then reset_env T S r.1 else step_env T S action r.1 in
      let resumed : Served T S (suc c) (next (crashed T S (measured T S e), checked T S e)) =
        subst
          (λ b.
            Served T S (suc c)
              (if b then reset_env T S (checked T S e) else step_env T S action (checked T S e)))
          (sym fine)
          (step_env-Served action c (checked T S e)
            (going, room, fine, checked-Known T S e, is_c)) in
      subst (λ r. Served T S (suc c) (next r)) (sym test) resumed

  -- Answers to requests: no exception, the steps counted from the last reset and never above the
  -- limit, and each observation and flag of the state that the server has then.
  abbrev pub Episodes : Bool → ℕ → List (Request P) → HoverEnv P T → Type 0
  Episodes due c [] e = Unit
  Episodes due c (q ∷ qs) e =
      let (r, e') = serve_one T S q e in
      (a : Answer P) × (r ≡ ok a)
      × (e'.current_step ≡ next_step q due c)
      × (e'.current_step ≤ S.max_steps_per_episode)
      × Shows T S e' a
      × Episodes a.done (next_step q due c) qs e'

  next_step-le :
      (q : Request P) (due : Bool) (c : ℕ) (e : HoverEnv P T)
      → Rests T S due c e
      → next_step q due c ≤ S.max_steps_per_episode
  unfolding Rests
  next_step-le force_reset due c e rests = omega arith
  next_step-le (act action) true c e rests = omega arith
  next_step-le (act action) false c e (going, room, fine, known, is_c) = ground (arith, room, is_c)

  serve-Episodes :
      (qs : List (Request P)) (due : Bool) (c : ℕ) (e : HoverEnv P T)
      → Rests T S due c e
      → Episodes due c qs e
  unfolding Served
  serve-Episodes [] due c e rests = tt
  serve-Episodes (q ∷ qs) due c e rests =
      let (a, returned, step, shows, rests') = serve_one-Served q due c e rests in
      (
        a,
        returned,
        step,
        subst (λ n. n ≤ S.max_steps_per_episode) (sym step) (next_step-le q due c e rests),
        shows,
        serve-Episodes qs a.done (next_step q due c) (serve_one T S q e).1 rests',
      )

  -- A new hover environment that a pool drives answers every request without an exception, as long
  -- as the server's calls return. A request that is forced to, the first one and each behind an
  -- answer that ends an episode reset it, every other one is a step; the steps of an episode are at
  -- most the limit, and an answer ends the episode exactly if they are as many or the state crashed.
  -- That state, which the observation shows with the history of actions, is what the server has then.
  pub serve_one-Episodes :
      (qs : List (Request P)) (e : HoverEnv P T) → e.done ≡ true → Episodes true 0 qs e
  unfolding Rests is_done
  serve_one-Episodes qs e new = serve-Episodes qs true 0 e (rw new refl)
