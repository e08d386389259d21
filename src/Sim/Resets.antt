-- ===== src/Sim/Resets.antt =====
-- What `DRLHelperSystem` writes to the simulation for one model: `ResetUavCommands` and
-- `ReleaseVelocityCmds` of GzDRL/src/rl_server.cc. Each takes the calls made so far, the latest
-- first, and returns them with its own.
pub mod Holds
use gz_drl.Base.{
  ℕ, Option, none, some, List, [], ◌∷◌, nat_beq, if◌then◌else◌, Name, nat_eq, name_eq,
}
use gz_drl.Base.Map.{Map, find}
use gz_drl.Sim.Defs.{
  world_pose_cmd, linear_velocity_cmd, angular_velocity_cmd, pose_component, world_pose,
  external_world_wrench_cmd, joint_force_cmd, joint_velocity_cmd, joint_position_reset,
  joint_velocity_reset, joint_position, joint_velocity, at_pose, zero_vector, no_wrench, zeros,
  SdfLink, SdfModel, Call, set_component, remove_component, Ecm,
}

module _ {P : Type 0} (ecm : Ecm P) where
  -- The loop over the links of the description.
  unfoldable pub reset_links : ℕ → P → List (SdfLink P) → List (Call P) → List (Call P)
  reset_links model_ent pose [] calls = calls
  reset_links model_ent pose (link ∷ links) calls =
      let link_ent = ecm.link_by_name calls model_ent link.link_name in
      if nat_beq link_ent 0
      then reset_links model_ent pose links calls
      else let placed = set_component link_ent pose_component (at_pose link.rel_pose) ∷ calls in
        let world = set_component link_ent world_pose (at_pose (ecm.compose pose link.rel_pose)) in
        let tracked = if ecm.has_world_pose placed link_ent then world ∷ placed else placed in
        reset_links model_ent pose links (
          set_component link_ent external_world_wrench_cmd no_wrench
          ∷ remove_component link_ent external_world_wrench_cmd
          ∷ tracked)

  -- One round of the loop over the joints: as many zeros as the joint has positions, one where that
  -- is not known.
  unfoldable pub reset_joint : ℕ → List (Call P) → List (Call P)
  reset_joint joint calls =
      let removed =
        remove_component joint joint_velocity_cmd
        ∷ remove_component joint joint_force_cmd
        ∷ calls in
      let dof : ℕ = elim (ecm.joint_size removed joint) [ none ↦ 1 | some n ↦ n ] in
      if nat_beq dof 0
      then removed
      else set_component joint joint_velocity (zeros dof)
        ∷ set_component joint joint_position (zeros dof)
        ∷ set_component joint joint_velocity_reset (zeros dof)
        ∷ set_component joint joint_position_reset (zeros dof)
        ∷ removed

  unfoldable pub reset_joints : List ℕ → List (Call P) → List (Call P)
  unfolding reset_joint
  reset_joints [] calls = calls
  reset_joints (joint ∷ joints) calls = reset_joints joints (reset_joint joint calls)

  -- `none` where the model has no description: the source prints a message and goes on with an
  -- iterator at the end.
  unfoldable pub reset_uav_commands :
      ℕ → P → Map Name (SdfModel P) → List (Call P) → Option (List (Call P))
  unfolding reset_links reset_joints
  reset_uav_commands model_ent pose model_sdf_objs calls =
      let stopped =
        set_component model_ent angular_velocity_cmd zero_vector
        ∷ set_component model_ent linear_velocity_cmd zero_vector
        ∷ set_component model_ent world_pose_cmd (at_pose pose)
        ∷ calls in
      elim (find (ecm.name_of stopped model_ent) model_sdf_objs) [
        | none ↦ none
        | some sdf ↦
            let placed = reset_links model_ent pose sdf.sdf_links stopped in
            some (reset_joints (ecm.joints placed model_ent) placed)
      ]

  unfoldable pub release_velocity_cmds : ℕ → List (Call P) → List (Call P)
  release_velocity_cmds model_ent calls =
      remove_component model_ent angular_velocity_cmd
      ∷ remove_component model_ent linear_velocity_cmd
      ∷ calls
