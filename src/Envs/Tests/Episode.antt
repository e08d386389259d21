-- ===== src/Envs/Tests/Episode.antt =====
-- A run of a hover environment, and its theorem at a concrete input.
use gz_drl.Base.{
  ℕ, ◌+◌, ◌≡◌, refl, true, false, ltb, List, [], ◌∷◌, codes, nat_eq, name_eq, both_eq,
}
use gz_drl.Base.Map.{find, insert}
use gz_drl.Envs.Tests.Environments.{some_processing, some_hover}
use gz_drl.Envs.Episode.{Task, Settings, HoverEnv, Request, force_reset, act, serve_one}
use gz_drl.Envs.Episode.Runs.{Episodes, serve_one-Episodes}

-- The server counts its steps, and every entry of a state is the count; it crashes above 90.
abbrev some_task : Task some_processing
some_task = record {
  Server = ℕ;
  Rng = ℕ;
  sample = λ rng. ((λ i. i), rng + 1);
  spread = λ x. x;
  raised = λ x. x;
  turned = λ x. x;
  nought = 0;
  plus = λ a b. a + b;
  respawn_model = λ name position angles server. 0;
  set_rotor_velocity_cmd = λ name link cmd server. server;
  run_once = λ server. server + 1;
  control = λ server link. ((λ i. server), (λ i. 0));
  tilts = λ state. false;
  strays = λ state. ltb 90 (state 0);
  yaws = λ state. false;
  compute_reward = λ wanted state. state 0;
}

abbrev some_settings : Settings some_processing
some_settings = record {
  model_name = codes "uav";
  link_name = codes "base";
  max_steps_per_episode = 2;
  physics_steps_per_control = 3;
  made = λ i. 0;
}

abbrev new_env : HoverEnv some_processing some_task
new_env = record {
  server = 0;
  rng = 0;
  processor = some_hover;
  states = record {
    current_state = [];
    current_state_dot = [];
    last_state = [];
    last_state_dot = [];
  };
  done = true;
  current_step = 0;
  current_episode = 0;
  reward = 0;
  extra_reward_terms = 0;
}

abbrev some_requests : List (Request some_processing)
some_requests =
    act (1 ∷ 2 ∷ []) ∷ act (1 ∷ 2 ∷ []) ∷ act (1 ∷ 2 ∷ []) ∷ act (1 ∷ 2 ∷ []) ∷ force_reset ∷ []

serve_one-Episodes_example : Episodes some_task some_settings true 0 some_requests new_env
serve_one-Episodes_example = serve_one-Episodes some_task some_settings some_requests new_env refl

abbrev after : List (Request some_processing) → HoverEnv some_processing some_task
after [] = new_env
after (q ∷ qs) = (serve_one some_task some_settings q (after qs)).1

-- The requests from the last: a reset, the two steps of the episode, another reset, and a step.
episodes_run : (after some_requests).current_episode ≡ 2
unfolding serve_one find insert
episodes_run = refl

steps_run : (after (act [] ∷ act [] ∷ act [] ∷ [])).server ≡ 7
unfolding serve_one find insert
steps_run = refl
