-- ===== src/Envs/Episode.antt =====
-- `HoverEnv` of envs/gazebo_envpool/gazebo_hover.hh, as a pool drives it. The server, the random
-- numbers and the arithmetic of poses and rewards are parameters; the server's calls return.
pub mod Answers
pub mod Runs
use gz_drl.Base.{
  ℕ, zero, suc, Bool, true, false, ◌||◌, Option, none, some, List, [], ◌∷◌, ◌++◌, leb,
  if◌then◌else◌, Name, nat_eq, name_eq, both_eq, out_of_range, Result, ok, throws,
}
use gz_drl.Base.Map.{Map, find, insert}
use gz_drl.Envs.Hover.{Processing, Hover, reset, process_action, process_observation}
use gz_drl.Envs.States.{States, Link, state_key, value_or, update_control_states}

pub record Task (P : Processing) : Type 1 where
  pub Server : Type 0
  pub Rng : Type 0
  -- Eight numbers between -1 and 1.
  pub sample : Rng → (ℕ → P.Float) × Rng
  -- `x * 5.0`, `1.5 + x * 1.5` and `x * 0.72`.
  pub spread : P.Float → P.Float
  pub raised : P.Float → P.Float
  pub turned : P.Float → P.Float
  pub nought : P.Float
  pub plus : P.Float → P.Float → P.Float
  pub respawn_model : Name → (ℕ → P.Float) → (ℕ → P.Float) → Server → Server
  pub set_rotor_velocity_cmd : Name → Name → List P.Float → Server → Server
  pub run_once : Server → Server
  -- What the server has of a link, behind its own `update_control_states`.
  pub control : Server → Link → (ℕ → P.Float) × (ℕ → P.Float)
  -- The tests of `IsDone` on the tilt, the place and the yaw of a state.
  pub tilts : (ℕ → P.Float) → Bool
  pub strays : (ℕ → P.Float) → Bool
  pub yaws : (ℕ → P.Float) → Bool
  -- `ComputeReward`, of the wanted place and of a state.
  pub compute_reward : (ℕ → P.Float) → (ℕ → P.Float) → P.Float

-- The configuration, and what `operator[]` makes of a missing state.
pub record Settings (P : Processing) : Type 0 where
  pub model_name : Name
  pub link_name : Name
  pub max_steps_per_episode : ℕ
  pub physics_steps_per_control : ℕ
  pub made : ℕ → P.Float

pub record HoverEnv (P : Processing) (T : Task P) : Type 0 where
  pub server : T.Server
  pub rng : T.Rng
  pub processor : Hover P
  pub states : States (ℕ → P.Float)
  pub done : Bool
  pub current_step : ℕ
  pub current_episode : ℕ
  pub reward : P.Float
  pub extra_reward_terms : P.Float

-- What is written for the policy.
pub record Answer (P : Processing) : Type 0 where
  pub obs : List P.Float
  pub reward : P.Float
  pub done : Bool

-- A policy's action, or a reset that is forced.
pub data Request (P : Processing) : Type 0 where
  force_reset : Request P
  act : List P.Float → Request P

-- The entries of a vector of four.
abbrev pub four : {F : Type 0} → F → F → F → F → ℕ → F
four a b c d zero = a
four a b c d (suc zero) = b
four a b c d (suc (suc zero)) = c
four a b c d (suc (suc (suc n))) = d

module _ {P : Processing} (T : Task P) (S : Settings P) where
  abbrev pub link_of : Link
  link_of = (S.model_name, S.link_name)

  unfoldable pub crashed : (ℕ → P.Float) → Bool
  crashed state = T.tilts state || T.strays state || T.yaws state

  -- Behind the tests of the flag and of the count.
  unfoldable pub check_crash : HoverEnv P T → Bool × HoverEnv P T
  unfolding crashed state_key
  check_crash e =
      let key = state_key link_of in
      let state = value_or S.made (find key e.states.current_state) in
      (
        crashed state,
        record e {
          extra_reward_terms = T.nought;
          states = record e.states { current_state = insert key state e.states.current_state };
        },
      )

  unfoldable pub is_done : HoverEnv P T → Bool × HoverEnv P T
  unfolding check_crash
  is_done e =
      if e.done
      then (true, e)
      else if leb S.max_steps_per_episode e.current_step
      then (true, record e { done = true })
      else check_crash e

  unfoldable pub refresh_states : HoverEnv P T → HoverEnv P T
  unfolding update_control_states
  refresh_states e = record e {
    states =
        update_control_states (T.control e.server) S.made ((S.model_name, S.link_name ∷ []) ∷ [])
          e.states;
  }

  -- `current_state.at(state_key_)` of the processor, and the answer.
  unfoldable pub answer_with : Option (ℕ → P.Float) → Bool → HoverEnv P T → Result (Answer P)
  unfolding process_observation
  answer_with none ended e = throws out_of_range
  answer_with (some state) ended e = ok (record {
    obs = process_observation state e.processor;
    reward = T.plus e.reward e.extra_reward_terms;
    done = ended;
  })

  unfoldable pub write_obs : HoverEnv P T → Result (Answer P) × HoverEnv P T
  unfolding is_done answer_with state_key
  write_obs e =
      let (ended, e') = is_done e in
      (answer_with (find (state_key link_of) e'.states.current_state) ended e', e')

  -- A new episode, up to the step of the simulation that it begins with.
  unfoldable pub respawned : HoverEnv P T → HoverEnv P T
  unfolding reset
  respawned e =
      let (r, rng') = T.sample e.rng in
      let position = four (T.spread (r 0)) (T.spread (r 1)) (T.raised (r 2)) T.nought in
      let angles = four T.nought T.nought (T.turned (r 3)) T.nought in
      let hover_pos = four (T.spread (r 4)) (T.spread (r 5)) (T.raised (r 6)) (T.turned (r 7)) in
      record e {
        rng = rng';
        processor = reset hover_pos e.processor;
        current_step = 0;
        current_episode = suc e.current_episode;
        done = false;
        server = T.run_once (T.respawn_model S.model_name position angles e.server);
      }

  unfoldable pub reset_env : HoverEnv P T → Result (Answer P) × HoverEnv P T
  unfolding write_obs refresh_states respawned
  reset_env e =
      write_obs
        (record (refresh_states (respawned e)) { reward = T.nought; extra_reward_terms = T.nought })

  -- The loop of `Step` over the physics steps.
  unfoldable pub drive : ℕ → List P.Float → HoverEnv P T → HoverEnv P T
  unfolding refresh_states
  drive zero cmd e = e
  drive (suc n) cmd e =
      let commanded = T.set_rotor_velocity_cmd S.model_name S.link_name cmd e.server in
      drive n cmd (refresh_states (record e { server = T.run_once commanded }))

  -- `ComputeReward`, which looks the state up by `at`, and the answer.
  unfoldable pub reward_with :
      Option (ℕ → P.Float) → HoverEnv P T → Result (Answer P) × HoverEnv P T
  unfolding write_obs
  reward_with none e = (throws out_of_range, e)
  reward_with (some state) e =
      write_obs (record e { reward = T.compute_reward e.processor.desired_hover_pos state })

  unfoldable pub step_env : List P.Float → HoverEnv P T → Result (Answer P) × HoverEnv P T
  unfolding process_action drive reward_with state_key
  step_env action e =
      let (cmd, processor') = process_action action e.processor in
      let driven =
        drive S.physics_steps_per_control cmd
          (record e { current_step = suc e.current_step; processor = processor' }) in
      reward_with (find (state_key link_of) driven.states.current_state)
        (record driven { reward = T.nought })

  -- How EnvPool calls an environment: one that is done, or a reset that is forced, is reset.
  unfoldable pub serve_one : Request P → HoverEnv P T → Result (Answer P) × HoverEnv P T
  unfolding is_done reset_env step_env
  serve_one force_reset e = reset_env e
  serve_one (act action) e =
      let (ended, e') = is_done e in if ended then reset_env e' else step_env action e'
