-- ===== src/Sim/Update.antt =====
-- `DRLHelperSystem`: the requests, the caches, and `PreUpdate` of GzDRL/src/rl_server.cc.
use gz_drl.Base.{
  ℕ, zero, suc, Bool, true, false, Option, none, some, List, [], ◌∷◌, ◌++◌, Name, nat_eq, name_eq,
  runtime_error, Result, ok, throws,
}
pub mod Keeps
pub mod Steps
pub mod Settles
use gz_drl.Base.Map.{Map, find, insert, emplace}
use gz_drl.Sim.Defs.{
  Component, world_pose_cmd, linear_velocity_cmd, angular_velocity_cmd, pose_component, world_pose,
  external_world_wrench_cmd, joint_force_cmd, joint_velocity_cmd, joint_position_reset,
  joint_velocity_reset, joint_position, joint_velocity, Value, at_pose, zero_vector, no_wrench,
  zeros, SdfLink, SdfModel, Call, set_component, remove_component, request_remove_entity,
  create_entities, set_parent, enable_checks, Ecm, Request, Helper,
}
use gz_drl.Sim.Splitter.{model_name_splitter}
use gz_drl.Sim.Resets.{reset_uav_commands, release_velocity_cmds}

-- A call that may throw, with what it has changed by then.
abbrev pub Outcome : Type 0 → Type 0
Outcome S = Result (Unit {0}) × S

-- An exception ends what follows.
abbrev pub and_then : {S : Type 0} → Outcome S → (S → Outcome S) → Outcome S
and_then (throws e, s) next = (throws e, s)
and_then (ok _, s) next = next s

-- The same, where a step may also be undefined.
abbrev pub go_on : {S : Type 0} → Option (Outcome S) → (S → Option (Outcome S)) → Option (Outcome S)
go_on none next = none
go_on (some (throws e, s)) next = some (throws e, s)
go_on (some (ok _, s)) next = next s

module _ {P : Type 0} where
  unfoldable pub reset_pos : Name → P → Helper P → Helper P
  reset_pos model_name pose h = record h { reset_queue = h.reset_queue ++ (model_name, pose) ∷ [] }

  unfoldable pub respawn_model : Name → P → Helper P → Helper P
  respawn_model model_name pose h = record h {
    respawn_queue = h.respawn_queue ++ (model_name, pose) ∷ [];
  }

module _ {P : Type 0} (ecm : Ecm P) where
  -- `nested_names[idx]` and what follows it.
  unfoldable pub recursive_model_finder : List Name → ℕ → List (Call P) → ℕ
  recursive_model_finder [] parent_model calls = parent_model
  recursive_model_finder (name ∷ names) parent_model calls =
      recursive_model_finder names (ecm.model_by_name calls parent_model name) calls

  -- The loop over the links of a model: the cache of its links.
  unfoldable pub cache_links : List ℕ → Map Name ℕ → List (Call P) → Map Name ℕ × List (Call P)
  cache_links [] link_map calls = (link_map, calls)
  cache_links (link_ent ∷ link_ents) link_map calls =
      let checked = enable_checks link_ent ∷ calls in
      let link_map' : Map Name ℕ = elim (ecm.link_name_of checked link_ent) [
        | none ↦ link_map
        | some lname ↦ emplace lname link_ent link_map
      ] in
      cache_links link_ents link_map' checked

  -- One round of the loop of `init_method`: what it does with the entity that the simulation knows
  -- by the first part of the name, and with the parts of a name.
  unfoldable pub cache_model : Name → List Name → Option ℕ → Helper P → Outcome (Helper P)
  unfolding recursive_model_finder cache_links
  cache_model model_name nested none h = (throws runtime_error, h)
  cache_model model_name nested (some entity) h =
      let model = recursive_model_finder nested entity h.calls in
      let (link_map, calls) = cache_links (ecm.links h.calls model) [] h.calls in
      (
        ok tt,
        record h {
          models = insert model_name model h.models;
          cached_links = insert model_name link_map h.cached_links;
          calls = calls;
        },
      )

  -- A name has at least one part.
  unfoldable pub cache_parts : Name → List Name → Helper P → Outcome (Helper P)
  unfolding cache_model
  cache_parts model_name [] h = (ok tt, h)
  cache_parts model_name (base ∷ nested) h =
      cache_model model_name nested (ecm.entity_by_name h.calls base) h

  -- The loop over the names of the models.
  unfoldable pub cache_models : List Name → Helper P → Outcome (Helper P)
  unfolding cache_parts
  cache_models [] h = (ok tt, h)
  cache_models (model_name ∷ names) h =
      and_then (cache_parts model_name (model_name_splitter model_name) h)
        (λ h'. cache_models names h')

  unfoldable pub init_caches : Helper P → Outcome (Helper P)
  unfolding cache_models
  init_caches h = cache_models h.model_names h

  -- The loop over `reset_queue`.
  unfoldable pub reset_all :
      List (Request P) → Map Name (SdfModel P) → List (Call P) → Option (List (Call P))
  reset_all [] sdfs calls = some calls
  reset_all ((name, pose) ∷ requests) sdfs calls = elim (ecm.entity_by_name calls name) [
    | none ↦ reset_all requests sdfs calls
    | some entity ↦ elim (reset_uav_commands ecm entity pose sdfs calls) [
      | none ↦ none
      | some calls' ↦ reset_all requests sdfs calls'
    ]
  ]

  -- The loop over `post_reset_queue`.
  unfoldable pub release_all : List (Request P) → List (Call P) → List (Call P)
  release_all [] calls = calls
  release_all ((name, pose) ∷ requests) calls = elim (ecm.entity_by_name calls name) [
    | none ↦ release_all requests calls
    | some entity ↦ release_all requests (release_velocity_cmds ecm entity calls)
  ]

  -- The loop over `respawn_queue`.
  unfoldable pub remove_all : List (Request P) → List (Call P) → List (Call P)
  remove_all [] calls = calls
  remove_all ((name, pose) ∷ requests) calls = elim (ecm.entity_by_name calls name) [
    | none ↦ remove_all requests calls
    | some entity ↦ remove_all requests (request_remove_entity entity ∷ calls)
  ]

  -- One round of the loop over `post_respawn_queue`.
  unfoldable pub spawn : Name → P → SdfModel P → Helper P → Helper P
  spawn name pose sdf h =
      let placed = record sdf { raw_pose = pose } in
      let entity = ecm.created (create_entities placed ∷ h.calls) placed in
      let calls = set_parent entity h.main_parent_entity ∷ create_entities placed ∷ h.calls in
      let moved : List (Call P) = elim (ecm.entity_by_name calls name) [
        | none ↦ calls
        | some found ↦ set_component found world_pose_cmd (at_pose pose) ∷ calls
      ] in
      record h { model_sdf_objs = insert name placed h.model_sdf_objs; calls = moved }

  -- A model without a description is passed over.
  unfoldable pub spawn_found : Name → P → Option (SdfModel P) → Helper P → Helper P
  unfolding spawn
  spawn_found name pose none h = h
  spawn_found name pose (some sdf) h = spawn name pose sdf h

  unfoldable pub spawn_all : List (Request P) → Helper P → Helper P
  unfolding spawn_found
  spawn_all [] h = h
  spawn_all ((name, pose) ∷ requests) h =
      spawn_all requests (spawn_found name pose (find name h.model_sdf_objs) h)

  -- `none` where the source dereferences an iterator at the end.
  unfoldable pub pre_update : Bool → Helper P → Option (Outcome (Helper P))
  unfolding reset_all release_all remove_all spawn_all init_caches
  pre_update true h = some (ok tt, h)
  pre_update false h = elim h.reset_queue [
    | request ∷ requests ↦ elim (reset_all h.reset_queue h.model_sdf_objs h.calls) [
      | none ↦ none
      | some calls ↦ some (
        ok tt,
        record h {
          post_reset_queue = h.post_reset_queue ++ h.reset_queue;
          reset_queue = [];
          calls = calls;
        },
      )
    ]
    | [] ↦ elim h.post_reset_queue [
      | request ∷ requests ↦ some (
        ok tt,
        record h { calls = release_all h.post_reset_queue h.calls; post_reset_queue = [] },
      )
      | [] ↦ elim h.respawn_queue [
        | request ∷ requests ↦ some (
          ok tt,
          record h {
            calls = remove_all h.respawn_queue h.calls;
            post_respawn_queue = h.post_respawn_queue ++ h.respawn_queue;
            respawn_queue = [];
          },
        )
        | [] ↦ elim h.post_respawn_queue [
          | request ∷ requests ↦
              let spawned = spawn_all h.post_respawn_queue h in
              some (init_caches (record spawned { post_respawn_queue = [] }))
          | [] ↦ some (ok tt, h)
        ]
      ]
    ]
  ]

  -- `n` steps of a simulation that is not paused; an exception ends them.
  unfoldable pub run_steps : ℕ → Helper P → Option (Outcome (Helper P))
  unfolding pre_update
  run_steps zero h = some (ok tt, h)
  run_steps (suc n) h = go_on (pre_update false h) (λ h'. run_steps n h')
