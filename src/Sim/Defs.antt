-- ===== src/Sim/Defs.antt =====
-- The state of `DRLHelperSystem` (GzDRL/include/rl_server.hh), what it asks of the simulation, and
-- what it writes there. Entities are numbers, and 0 is `kNullEntity`.
use gz_drl.Base.{ℕ, Bool, Option, List, Name, nat_eq, name_eq}
use gz_drl.Base.Map.{Map}

-- The components of the simulation that the system writes.
pub data Component : Type 0 where
  world_pose_cmd linear_velocity_cmd angular_velocity_cmd : Component
  pose_component world_pose external_world_wrench_cmd : Component
  joint_force_cmd joint_velocity_cmd joint_position_reset joint_velocity_reset : Component
  joint_position joint_velocity : Component

-- What is written: a pose, a vector of three zeros, a list of zeros, or an empty wrench.
pub data Value (P : Type 0) : Type 0 where
  at_pose : P → Value P
  zero_vector no_wrench : Value P
  zeros : ℕ → Value P

-- A link of a model's description: its name, and its pose in the model's frame.
pub record SdfLink (P : Type 0) : Type 0 where
  pub link_name : Name
  pub rel_pose : P

pub record SdfModel (P : Type 0) : Type 0 where
  pub raw_pose : P
  pub sdf_links : List (SdfLink P)

pub data Call (P : Type 0) : Type 0 where
  set_component : ℕ → Component → Value P → Call P
  remove_component : ℕ → Component → Call P
  request_remove_entity : ℕ → Call P
  create_entities : SdfModel P → Call P
  set_parent : ℕ → ℕ → Call P
  enable_checks : ℕ → Call P

-- What the simulation answers, given the calls before, the latest first.
pub record Ecm (P : Type 0) : Type 0 where
  pub entity_by_name : List (Call P) → Name → Option ℕ
  pub name_of : List (Call P) → ℕ → Name
  pub link_by_name : List (Call P) → ℕ → Name → ℕ
  pub model_by_name : List (Call P) → ℕ → Name → ℕ
  pub has_world_pose : List (Call P) → ℕ → Bool
  pub joints : List (Call P) → ℕ → List ℕ
  pub joint_size : List (Call P) → ℕ → Option ℕ
  pub links : List (Call P) → ℕ → List ℕ
  pub link_name_of : List (Call P) → ℕ → Option Name
  pub created : List (Call P) → SdfModel P → ℕ
  -- The product of poses.
  pub compose : P → P → P

-- A request: the model's name and its pose.
abbrev pub Request : Type 0 → Type 0
Request P = Name × P

pub record Helper (P : Type 0) : Type 0 where
  pub model_names : List Name
  pub model_sdf_objs : Map Name (SdfModel P)
  pub main_parent_entity : ℕ
  pub reset_queue : List (Request P)
  pub post_reset_queue : List (Request P)
  pub respawn_queue : List (Request P)
  pub post_respawn_queue : List (Request P)
  pub models : Map Name ℕ
  pub cached_links : Map Name (Map Name ℕ)
  pub calls : List (Call P)
