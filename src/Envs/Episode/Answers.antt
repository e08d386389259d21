-- ===== src/Envs/Episode/Answers.antt =====
-- The answers of a hover environment.
use gz_drl.Base.{
  ℕ, ◌≡◌, refl, sym, ap, subst, ◌∙◌, inl, inr, Bool, true, false, ◌||◌, some, arith, leb,
  Bool-cases, Name, name_beq_iff, nat_eq, name_eq, both_eq, Result, ok,
}
use gz_drl.Base.Map.{Map, find, insert, find-insert}
use gz_drl.Envs.Hover.{Processing, process_observation}
use gz_drl.Envs.States.{state_key, value_or, update_link, update_link_names, update_control_states}
use gz_drl.Envs.Episode.{
  Task, Settings, HoverEnv, Answer, link_of, crashed, check_crash, is_done, refresh_states,
  answer_with, write_obs,
}

module _ {P : Processing} (T : Task P) (S : Settings P) where
  -- The state of the link that the server has.
  abbrev pub measured : HoverEnv P T → ℕ → P.Float
  measured e = (T.control e.server (link_of T S)).0

  -- The environment keeps the state that the server has.
  unfoldable pub Known : HoverEnv P T → Type 0
  Known e = find (state_key (link_of T S)) e.states.current_state ≡ some (measured e)

  -- Between two requests, by whether the last answer was the end of an episode.
  unfoldable pub Rests : Bool → ℕ → HoverEnv P T → Type 0
  Rests true c e = (is_done T S e).0 ≡ true
  Rests false c e =
      (e.done ≡ false)
      × (leb S.max_steps_per_episode e.current_step ≡ false)
      × (crashed T S (measured e) ≡ false)
      × Known e
      × (e.current_step ≡ c)

  -- What an answer shows of the environment that it leaves.
  abbrev pub Shows : HoverEnv P T → Answer P → Type 0
  Shows e a =
      (a.obs ≡ process_observation (measured e) e.processor)
      × (a.done ≡ (leb S.max_steps_per_episode e.current_step || crashed T S (measured e)))

  unfoldable pub Served : ℕ → Result (Answer P) × HoverEnv P T → Type 0
  Served c (r, e) =
      (a : Answer P) × (r ≡ ok a) × (e.current_step ≡ c) × Shows e a × Rests a.done c e

  find_self :
      (k : Name) (v : ℕ → P.Float) (m : Map Name (ℕ → P.Float)) → find k (insert k v m) ≡ some v
  find_self k v m = ground (arith, find-insert k k v m, name_beq_iff k k)

  pub refresh_states-Known : (e : HoverEnv P T) → Known (refresh_states T S e)
  unfolding Known refresh_states update_control_states update_link_names update_link state_key
  refresh_states-Known e = find_self (state_key (link_of T S)) (measured e) e.states.current_state

  is_done_full :
      (e : HoverEnv P T)
      → e.done ≡ false
      → leb S.max_steps_per_episode e.current_step ≡ true
      → is_done T S e ≡ (true, record e { done = true })
  unfolding is_done
  is_done_full e going full = rw (going, full) refl

  pub is_done_room :
      (e : HoverEnv P T)
      → e.done ≡ false
      → leb S.max_steps_per_episode e.current_step ≡ false
      → is_done T S e ≡ check_crash T S e
  unfolding is_done
  is_done_room e going room = rw (going, room) refl

  -- An environment whose crash was checked.
  abbrev pub checked : HoverEnv P T → HoverEnv P T
  checked e = record e {
    extra_reward_terms = T.nought;
    states = record e.states {
      current_state = insert (state_key (link_of T S)) (measured e) e.states.current_state;
    };
  }

  pub check_crash_lem :
      (e : HoverEnv P T) → Known e → check_crash T S e ≡ (crashed T S (measured e), checked e)
  unfolding check_crash Known
  check_crash_lem e known =
      ap
        (λ o.
          let state = value_or S.made o in
          (
            crashed T S state,
            record e {
              extra_reward_terms = T.nought;
              states = record e.states {
                current_state = insert (state_key (link_of T S)) state e.states.current_state;
              };
            },
          ))
        known

  pub checked-Known : (e : HoverEnv P T) → Known (checked e)
  unfolding Known
  checked-Known e = find_self (state_key (link_of T S)) (measured e) e.states.current_state

  checked-Rests :
      (e : HoverEnv P T)
      → e.done ≡ false
      → leb S.max_steps_per_episode e.current_step ≡ false
      → (b : Bool) → crashed T S (measured e) ≡ b
      → Rests b e.current_step (checked e)
  unfolding Rests
  checked-Rests e going room false fine = (going, room, fine, checked-Known e, refl)
  checked-Rests e going room true crash =
      let test =
        is_done_room (checked e) going room ∙ check_crash_lem (checked e) (checked-Known e) in
      ap (λ r. r.0) test ∙ crash

  -- The answer behind `IsDone`.
  abbrev written : Bool × HoverEnv P T → Result (Answer P) × HoverEnv P T
  written (ended, e) =
      (answer_with T S (find (state_key (link_of T S)) e.states.current_state) ended e, e)

  answer_of : Bool → P.Float → HoverEnv P T → Answer P
  answer_of b extra e = record {
    obs = process_observation (measured e) e.processor;
    reward = T.plus e.reward extra;
    done = b;
  }

  written_full :
      (e : HoverEnv P T)
      → Known e
      → leb S.max_steps_per_episode e.current_step ≡ true
      → Served e.current_step (written (true, record e { done = true }))
  unfolding answer_with Known Served Rests is_done answer_of
  written_full e known full = (
    answer_of true e.extra_reward_terms e,
    ap (λ o. answer_with T S o true (record e { done = true })) known,
    refl,
    (refl, rw full refl),
    refl,
  )

  written_room :
      (e : HoverEnv P T)
      → e.done ≡ false
      → leb S.max_steps_per_episode e.current_step ≡ false
      → Served e.current_step (written (crashed T S (measured e), checked e))
  unfolding answer_with Known Served answer_of
  written_room e going room = (
    answer_of (crashed T S (measured e)) T.nought e,
    ap (λ o. answer_with T S o (crashed T S (measured e)) (checked e)) (checked-Known e),
    refl,
    (refl, rw room refl),
    checked-Rests e going room (crashed T S (measured e)) refl,
  )

  pub write_obs-Served :
      (e : HoverEnv P T) → e.done ≡ false → Known e → Served e.current_step (write_obs T S e)
  unfolding write_obs
  write_obs-Served e going known = elim (Bool-cases (leb S.max_steps_per_episode e.current_step)) [
    | inl full ↦
        subst (λ r. Served e.current_step (written r)) (sym (is_done_full e going full))
          (written_full e known full)
    | inr room ↦
        let test = is_done_room e going room ∙ check_crash_lem e known in
        subst (λ r. Served e.current_step (written r)) (sym test) (written_room e going room)
  ]
