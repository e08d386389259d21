-- ===== src/Sim/Tests/Commands.antt =====
-- Runs of the commands to links, and their theorems at concrete inputs.
use gz_drl.Base.{
  ℕ, ◌+◌, ◌*◌, ◌≡◌, refl, true, Option, none, some, List, [], ◌∷◌, ◌++◌, map, nat_beq,
  if◌then◌else◌, length, Name, codes, name_beq, nat_eq, name_eq, both_eq, ok,
}
use mathlib.Core.List.{reverse}
use gz_drl.Base.Map.{find}
use gz_drl.Sim.Defs.{Helper}
use gz_drl.Sim.Update.{
  Outcome, respawn_model, pre_update, run_steps, remove_all, spawn_all, spawn_found, spawn,
  init_caches, cache_models, cache_parts, cache_model, cache_links, recursive_model_finder,
}
use gz_drl.Sim.Commands.{
  Mechanics, Target, CommandCall, create, set_data, mark_periodic, add_world_wrench, velocity,
  linear_velocity, component_of, write_command, find_link, set_link_cmd, set_wrench,
  set_joint_position_cmd, find_model, joint_position_cmd,
}
use gz_drl.Sim.Commands.Safety.{Paired, known_link, set_link_cmd-run_steps}
use gz_drl.Sim.Commands.Rotors.{
  row_or_none, leading, thrust, torque_sum, set_srt_cmd, rotor_loop, set_srt_cmd-leading,
}
use gz_drl.Sim.Tests.{one_model, one_helper}

-- Along one axis, where a pose turns nothing.
abbrev some_mechanics : Mechanics
some_mechanics = record {
  Real = ℕ;
  Vector = ℕ;
  Pose = ℕ;
  Direction = ℕ;
  zero_vec = 0;
  add = λ a b. a + b;
  rotate = λ p v. v;
  along_z = λ a. a;
  spin = λ d k c. d * k * c;
}

-- Entity 10 has no pose.
abbrev some_poses : ℕ → Option ℕ
some_poses e = if nat_beq e 10 then none else some 0

abbrev some_target : Target some_mechanics
some_target = record {
  has = λ calls e c. nat_beq e 8;
  differs = λ calls e c v. true;
  world_pose_of = λ calls e. some_poses e;
  joint_by_name = λ m name. if name_beq name (codes "joint") then 12 else 0;
}

abbrev uav : Name
uav = codes "uav"

abbrev no_calls : List (CommandCall some_mechanics)
no_calls = []

-- What two steps make of a request to respawn.
abbrev respawned : Helper ℕ
respawned = respawn_model uav 5 one_helper

one_helper-Paired : Paired respawned
unfolding Paired respawn_model find
one_helper-Paired m = refl

abbrev state_of : Option (Outcome (Helper ℕ)) → Helper ℕ
state_of none = one_helper
state_of (some (r, h)) = h

abbrev ready : Helper ℕ
ready = state_of (run_steps one_model 2 respawned)

ready_run : run_steps one_model 2 respawned ≡ some (ok tt, ready)
unfolding gz_drl.Sim.Splitter.model_name_splitter run_steps pre_update remove_all spawn_all
    spawn_found init_caches cache_models cache_parts cache_model cache_links recursive_model_finder
    respawn_model spawn find
ready_run = refl

set_link_cmd-run_steps_example :
    (let known = known_link true uav (codes "base") ready in
      (set_link_cmd some_target velocity true uav (codes "base") (1 ∷ 2 ∷ 3 ∷ []) ready no_calls
        ≡ ok (elim known [
          | none ↦ no_calls
          | some link ↦
              write_command some_target link (component_of velocity) (1 ∷ 2 ∷ 3 ∷ []) no_calls
        ]))
      × (set_wrench {M = some_mechanics} true uav (codes "base") 4 5 ready no_calls
          ≡ ok (elim known [ none ↦ no_calls | some link ↦ add_world_wrench link 4 5 ∷ no_calls ])))
set_link_cmd-run_steps_example =
    set_link_cmd-run_steps one_model some_target 2 respawned (ok tt) ready velocity true uav
      (codes "base") (1 ∷ 2 ∷ 3 ∷ []) 4 5 no_calls one_helper-Paired ready_run

-- The caches of a model with a base link, two rotors, and one that has no pose.
abbrev rotor_helper : Helper ℕ
rotor_helper = record one_helper {
  models = (uav, 7) ∷ [];
  cached_links =
      (uav, (codes "base", 8) ∷ (codes "front", 9) ∷ (codes "lost", 10) ∷ (codes "back", 11) ∷ [])
      ∷ [];
}

set_link_cmd_run :
    set_link_cmd some_target velocity true uav (codes "base") (1 ∷ 2 ∷ 3 ∷ []) rotor_helper no_calls
    ≡ ok (mark_periodic 8 linear_velocity ∷ set_data 8 linear_velocity (1 ∷ 2 ∷ 3 ∷ []) ∷ [])
unfolding set_link_cmd find_link write_command find
set_link_cmd_run = refl

set_joint_position_cmd_run :
    set_joint_position_cmd some_target true uav (codes "joint") (1 ∷ []) rotor_helper no_calls
    ≡ create 12 joint_position_cmd (1 ∷ []) ∷ []
unfolding set_joint_position_cmd find_model write_command find
set_joint_position_cmd_run = refl

abbrev some_rotors : List (Name × ℕ × ℕ)
some_rotors = (codes "front", 1, 5) ∷ (codes "lost", 1, 6) ∷ (codes "back", 1, 7) ∷ []

base_known : find_link true uav (codes "base") rotor_helper ≡ ok (some 8)
unfolding find_link find
base_known = refl

set_srt_cmd-leading_example :
    (let row = row_or_none (find uav rotor_helper.cached_links) in
      let ps = leading some_mechanics some_poses row some_rotors in
      set_srt_cmd some_target 2 true uav
        (codes "base")
        (map (λ r. r.0) some_rotors)
        (map (λ r. r.1) some_rotors ++ 9 ∷ [])
        (map (λ r. r.2) some_rotors ++ [])
        rotor_helper
        no_calls
      ≡ ok (
          some (
            (if nat_beq (length ps) (length some_rotors)
              then add_world_wrench 8 0 (torque_sum some_mechanics 2 0 ps) ∷ []
              else [])
            ++ reverse (map (thrust some_mechanics) ps)
            ++ no_calls)))
set_srt_cmd-leading_example =
    set_srt_cmd-leading some_target 2 some_poses rotor_helper true uav (codes "base") 8 some_rotors
      (9 ∷ []) [] no_calls (λ calls e. refl) base_known

-- The rotor in front got its thrust, and the base link no torque.
set_srt_cmd_run :
    set_srt_cmd some_target 2 true uav
      (codes "base")
      (map (λ r. r.0) some_rotors)
      (map (λ r. r.1) some_rotors)
      (map (λ r. r.2) some_rotors)
      rotor_helper
      no_calls
    ≡ ok (some (add_world_wrench 9 5 0 ∷ []))
unfolding set_srt_cmd rotor_loop find_link find
set_srt_cmd_run = refl
