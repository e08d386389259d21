-- ===== src/Sim/Tests.antt =====
-- Runs of the system inside the simulation, and its theorems at concrete inputs.
mod Views
mod Commands
mod Recordings
mod Discovery
mod Inertials
mod Allocation
mod Tracking
mod Setters
use gz_drl.Base.{
  ℕ, ◌+◌, ◌/◌, ◌%◌, ◌≡◌, refl, sym, true, none, some, List, [], ◌∷◌, arith, nat_beq, if◌then◌else◌,
  All, codes, name_beq, name_beq_iff, nat_eq, name_eq, ok,
}
use gz_drl.Base.Map.{find}
use gz_drl.Sim.Defs.{
  world_pose_cmd, linear_velocity_cmd, angular_velocity_cmd, pose_component, world_pose,
  external_world_wrench_cmd, joint_force_cmd, joint_velocity_cmd, joint_position_reset,
  joint_velocity_reset, joint_position, joint_velocity, at_pose, zero_vector, no_wrench, zeros,
  set_component, remove_component, Call, Ecm, Helper,
}
use gz_drl.Sim.Markers.{
  MarkerManager, show, core_marker, halo_marker, new_manager, set_marker, set_markers,
}
use gz_drl.Sim.Markers.Ids.{set_marker-set_markers}
use gz_drl.Sim.Splitter.{find_delimiter, join_parts, model_name_splitter, model_name_splitter_lem}
use gz_drl.Sim.Resets.{reset_uav_commands, reset_links, reset_joints, reset_joint}
use gz_drl.Sim.Update.{reset_pos, run_steps, reset_all}
use gz_drl.Sim.Update.Keeps.{Names}
use gz_drl.Sim.Update.Steps.{IsIdle}
use gz_drl.Sim.Server.{
  ServerCall, run_request, reset_request, respawn_request, reset_model_pos, serve, serve-IsIdle,
}
use gz_drl.Sim.Server.Writes.{at_rest, HeldAt, reset_model_pos_lem}

splitter_run :
    model_name_splitter (codes "uav::arm::hand") ≡ codes "uav" ∷ codes "arm" ∷ codes "hand" ∷ []
unfolding model_name_splitter
splitter_run = refl

model_name_splitter_lem_example :
    (join_parts (model_name_splitter (codes "uav::arm")) ≡ codes "uav::arm")
    × All (λ p. find_delimiter p ≡ none) (model_name_splitter (codes "uav::arm"))
model_name_splitter_lem_example = model_name_splitter_lem (codes "uav::arm")

-- A world with one model, entity 7, with a link, entity 8, and a joint, entity 9.
abbrev pub one_model : Ecm ℕ
one_model = record {
  entity_by_name = λ calls name. if name_beq name (codes "uav") then some 7 else none;
  name_of = λ calls e. codes "uav";
  link_by_name = λ calls e name. 8;
  model_by_name = λ calls e name. 0;
  has_world_pose = λ calls e. true;
  joints = λ calls e. 9 ∷ [];
  joint_size = λ calls e. some 1;
  links = λ calls e. 8 ∷ [];
  link_name_of = λ calls e. some (codes "base");
  created = λ calls sdf. 7;
  compose = λ p q. p + q;
}

abbrev pub one_helper : Helper ℕ
one_helper = record {
  model_names = codes "uav" ∷ [];
  model_sdf_objs =
      (
        codes "uav",
        record { raw_pose = 0; sdf_links = record { link_name = codes "base"; rel_pose = 1 } ∷ [] },
      )
      ∷ [];
  main_parent_entity = 1;
  reset_queue = [];
  post_reset_queue = [];
  respawn_queue = [];
  post_respawn_queue = [];
  models = [];
  cached_links = [];
  calls = [];
}

abbrev some_calls : List (ServerCall ℕ)
some_calls =
    reset_request (codes "uav") 5
    ∷ run_request 0
    ∷ respawn_request (codes "uav") 6
    ∷ run_request 2
    ∷ []

one_model-Names : Names one_model
one_model-Names = record {
  found_name = λ calls n e found. sym ((name_beq_iff n (codes "uav")).0 (ground (arith, found)));
  set_found = λ calls n e c v. refl;
  removed_found = λ calls n e c. refl;
  set_name = λ calls e k c v. refl;
}

serve-IsIdle_example :
    (h' : Helper ℕ) × (serve one_model some_calls one_helper ≡ some h') × IsIdle h'
unfolding find
serve-IsIdle_example =
    serve-IsIdle one_model one_model-Names some_calls one_helper
      (record { no_reset = refl; no_post_reset = refl; no_respawn = refl; no_post_respawn = refl })
      (refl, tt)

reset_model_pos_lem_example :
    (held released : List (Call ℕ)) × (run_steps one_model 1
        (reset_pos (codes "uav") 5 (at_rest one_helper))
      ≡ some (
        ok tt,
        record (at_rest one_helper) { post_reset_queue = (codes "uav", 5) ∷ []; calls = held },
      ))
    × HeldAt 7 5 (some zero_vector) held
    × (run_steps one_model 2 (reset_pos (codes "uav") 5 (at_rest one_helper))
        ≡ some (ok tt, record (at_rest one_helper) { calls = released }))
    × HeldAt 7 5 none released
    × (reset_model_pos one_model (codes "uav") 5 (at_rest one_helper)
        ≡ some (ok tt, record (at_rest one_helper) { calls = released }))
unfolding find
reset_model_pos_lem_example =
    reset_model_pos_lem one_model one_model-Names (codes "uav") 5 7 one_helper refl refl

-- The first step stops the model, places it, its link and its joint.
reset_all_run :
    reset_all one_model ((codes "uav", 5) ∷ []) one_helper.model_sdf_objs []
    ≡ some (
        set_component 9 joint_velocity (zeros 1)
        ∷ set_component 9 joint_position (zeros 1)
        ∷ set_component 9 joint_velocity_reset (zeros 1)
        ∷ set_component 9 joint_position_reset (zeros 1)
        ∷ remove_component 9 joint_velocity_cmd
        ∷ remove_component 9 joint_force_cmd
        ∷ set_component 8 external_world_wrench_cmd no_wrench
        ∷ remove_component 8 external_world_wrench_cmd
        ∷ set_component 8 world_pose (at_pose 6)
        ∷ set_component 8 pose_component (at_pose 1)
        ∷ set_component 7 angular_velocity_cmd zero_vector
        ∷ set_component 7 linear_velocity_cmd zero_vector
        ∷ set_component 7 world_pose_cmd (at_pose 5)
        ∷ [])
unfolding reset_all reset_uav_commands reset_links reset_joints reset_joint find
reset_all_run = refl

-- A manager of two ids that shows every third sample.
abbrev some_manager : MarkerManager ℕ
some_manager = record {
  max_markers = 2;
  marker_interval = 3;
  samples_seen = 0;
  markers_published = 0;
  requests = [];
}

new_manager_run : new_manager 2 3 true ≡ ok some_manager
unfolding new_manager
new_manager_run = refl

set_markers_run :
    (set_markers (10 ∷ 11 ∷ 12 ∷ 13 ∷ []) some_manager).requests
    ≡ show core_marker 2 13
      ∷ show halo_marker 2 13
      ∷ show core_marker 1 10
      ∷ show halo_marker 1 10
      ∷ []
unfolding set_markers set_marker
set_markers_run = refl

set_marker-set_markers_example :
    (set_marker 16 (set_markers (10 ∷ 11 ∷ 12 ∷ 13 ∷ 14 ∷ 15 ∷ []) some_manager)).requests ≡ (
      if nat_beq (6 % 3) 0
      then show core_marker (1 + 6 / 3 % 2) 16
        ∷ show halo_marker (1 + 6 / 3 % 2) 16
        ∷ (set_markers (10 ∷ 11 ∷ 12 ∷ 13 ∷ 14 ∷ 15 ∷ []) some_manager).requests
      else (set_markers (10 ∷ 11 ∷ 12 ∷ 13 ∷ 14 ∷ 15 ∷ []) some_manager).requests)
set_marker-set_markers_example =
    set_marker-set_markers (10 ∷ 11 ∷ 12 ∷ 13 ∷ 14 ∷ 15 ∷ []) 16 some_manager refl refl
      (ground arith) (ground arith)
