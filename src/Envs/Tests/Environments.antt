-- ===== src/Envs/Tests/Environments.antt =====
-- Runs of the parts of environments, and their theorems at concrete inputs.
use gz_drl.Base.{
  ℕ, ◌+◌, ◌-◌, ◌*◌, ◌/◌, ◌≡◌, refl, true, false, not, none, some, List, [], ◌∷◌, map, ltb, nat_beq,
  length, take, drop, All, Name, codes, nat_eq, name_eq, both_eq, invalid_argument, ok, throws,
}
use gz_drl.Base.Map.{find, insert}
use gz_drl.Envs.Hover.{
  Processing, Hover, pop_back, fill, push_front, push_action, reset, process_action,
  process_actions, process_observation,
}
use gz_drl.Envs.Hover.Memory.{remembered, newest_first, process_observation-process_actions}
use gz_drl.Envs.States.{
  States, Link, state_key, update_link, update_link_names, update_control_states, merge_path,
}
use gz_drl.Envs.States.Shifts.{
  all_links, link_with, Distinct, Shifted, update_control_states-Shifted,
}
use gz_drl.Envs.Reference.{
  Floats, Curve, axes_fit, validate, new_reference, update_curve, axis, state, errors,
}
use gz_drl.Envs.Reference.Valid.{Update, update_all, features, errors-update_all}

abbrev pub some_processing : Processing
some_processing = record {
  Float = ℕ;
  rotor_velocity = λ a. (a + 1) * 10;
  shown = λ v. v + 1;
  reset_value = 0;
  minus = λ a b. a - b;
  yaw_error = λ d s. d 3;
}

abbrev pub some_hover : Hover some_processing
some_hover = record {
  action_history_size = 2;
  act_dim = 2;
  action_history = [];
  desired_hover_pos = λ i. 0;
}

abbrev some_actions : List (List ℕ)
some_actions = (1 ∷ 2 ∷ []) ∷ (3 ∷ 4 ∷ []) ∷ (5 ∷ 6 ∷ []) ∷ []

process_observation-process_actions_example :
    (let n = some_hover.action_history_size * some_hover.act_dim in
      let observed =
        process_observation {P = some_processing}
          (λ i. i)
          (process_actions some_actions (reset (λ i. 9) some_hover)) in
      (length observed ≡ 14 + n)
      × (drop 14 observed
          ≡ take n (newest_first (map (remembered some_processing) some_actions) (fill n 0))))
process_observation-process_actions_example =
    process_observation-process_actions {P = some_processing} (λ i. 9) (λ i. i) some_actions
      some_hover

process_actions_run :
    (process_actions some_actions (reset (λ i. 9) some_hover)).action_history
    ≡ 61 ∷ 71 ∷ 41 ∷ 51 ∷ []
unfolding process_actions process_action reset fill push_action push_front pop_back
process_actions_run = refl

abbrev no_states : States ℕ
no_states = record {
  current_state = [];
  current_state_dot = [];
  last_state = [];
  last_state_dot = [];
}

abbrev some_models : List (Name × List Name)
some_models = (codes "uav", codes "base" ∷ codes "arm" ∷ []) ∷ (codes "car", codes "base" ∷ []) ∷ []

abbrev some_control : Link → ℕ × ℕ
some_control link = (length link.1, 1)

some_models-Distinct : Distinct (all_links some_models)
unfolding link_with state_key
some_models-Distinct = (refl, (refl, (refl, tt)))

update_control_states-Shifted_example :
    Shifted some_control 7
      (codes "uavarm")
      (link_with (codes "uavarm") (all_links some_models))
      no_states
      (update_control_states some_control 7 some_models no_states)
update_control_states-Shifted_example =
    update_control_states-Shifted some_control 7 some_models (codes "uavarm") no_states
      some_models-Distinct

-- Two links whose names make up one key: the last state of the second is the new one of the first.
shared_key_run :
    find
      (codes "abc")
      (update_control_states some_control 7
        ((codes "ab", codes "c" ∷ []) ∷ (codes "a", codes "bc" ∷ []) ∷ [])
        no_states).last_state
    ≡ some 1
unfolding update_control_states update_link_names update_link state_key find insert
shared_key_run = refl

merge_path_run : merge_path (codes "a") (some (codes "b")) ≡ codes "a:b"
unfolding merge_path
merge_path_run = refl

-- 99 stands for what is not finite.
abbrev some_floats : Floats
some_floats = record {
  Float = ℕ;
  nought = 0;
  is_finite = λ a. not (nat_beq a 99);
  is_positive = λ a. ltb 0 a;
  plus = λ a b. a + b;
  minus = λ a b. a - b;
  times = λ a b. a * b;
  sin = λ a. a;
  cos = λ a. a;
  atan2 = λ a b. a;
  half = λ a. a / 2;
  of_nat = λ n. n;
  rotation = λ w z i. w + z + i;
}

abbrev some_curve : Curve some_floats
some_curve = record {
  amplitudes = 1 ∷ 2 ∷ 3 ∷ [];
  frequencies = 1 ∷ 1 ∷ 2 ∷ [];
  phases = 0 ∷ 0 ∷ 1 ∷ [];
  height_offset = 5;
  control_dt = 1;
  fixed_zero_yaw = true;
}

-- The first has a phase that is not finite.
abbrev some_updates : List (Update some_floats)
some_updates =
    record {
      amplitudes = 1 ∷ 2 ∷ 3 ∷ [];
      frequencies = 1 ∷ 1 ∷ 2 ∷ [];
      phases = 0 ∷ 99 ∷ 1 ∷ [];
      height_offset = 5;
      fixed_zero_yaw = true;
    }
    ∷ record {
      amplitudes = 4 ∷ 4 ∷ 4 ∷ [];
      frequencies = 1 ∷ 1 ∷ 1 ∷ [];
      phases = 0 ∷ 0 ∷ 0 ∷ [];
      height_offset = 6;
      fixed_zero_yaw = false;
    }
    ∷ []

some_curve_made : new_reference some_curve ≡ ok some_curve
unfolding new_reference validate axes_fit
some_curve_made = refl

some_updates_fit : (update_all some_updates (ok tt) some_curve).0 ≡ ok tt
unfolding update_all update_curve validate axes_fit
some_updates_fit = refl

errors-update_all_example :
    (let now = (update_all some_updates (ok tt) some_curve).1 in
      ((state_now : List ℕ) × (state now 3 ≡ some state_now) × (length state_now ≡ 13))
      × ((rows : List (List ℕ)) × (errors now (λ i. i) 3 4 true ≡ some rows)
          × (length rows ≡ 4)
          × All (λ row. length row ≡ features true) rows))
errors-update_all_example =
    errors-update_all some_curve some_curve some_updates (λ i. i) 3 4 true some_curve_made
      some_updates_fit

-- An update that throws leaves what it refused, and the next state is read out of bounds.
refused_update_run :
    ((update_curve [] [] [] 5 true some_curve).0 ≡ throws invalid_argument)
    × (state (update_curve [] [] [] 5 true some_curve).1 3 ≡ none)
unfolding update_curve validate axes_fit state axis
refused_update_run = (refl, refl)
