-- ===== src/Sim/Resets/Holds.antt =====
-- What stands in the simulation after the writes of GzDRL/src/rl_server.cc, and what a reset leaves
-- of it.
use gz_drl.Base.{
  ℕ, ◌≤◌, ◌≡◌, subst, ◌∙◌, Bool, true, false, ◌&&◌, Option, none, some, List, [], ◌∷◌, arith,
  nat_beq, if◌then◌else◌, Name, nat_eq, name_eq,
}
use gz_drl.Base.Map.{Map, find}
use gz_drl.Sim.Defs.{
  Component, world_pose_cmd, linear_velocity_cmd, angular_velocity_cmd, pose_component, world_pose,
  external_world_wrench_cmd, joint_force_cmd, joint_velocity_cmd, joint_position_reset,
  joint_velocity_reset, joint_position, joint_velocity, Value, at_pose, zero_vector, SdfLink,
  SdfModel, Call, set_component, remove_component, request_remove_entity, create_entities,
  set_parent, enable_checks, Ecm,
}
use gz_drl.Sim.Resets.{reset_links, reset_joint, reset_joints, reset_uav_commands}
use gz_drl.Sim.Update.Keeps.{Names}

-- A number for each component; those of the commands to a model are the least.
abbrev pub kind_of : Component → ℕ
kind_of world_pose_cmd = 0
kind_of linear_velocity_cmd = 1
kind_of angular_velocity_cmd = 2
kind_of pose_component = 3
kind_of world_pose = 4
kind_of external_world_wrench_cmd = 5
kind_of joint_force_cmd = 6
kind_of joint_velocity_cmd = 7
kind_of joint_position_reset = 8
kind_of joint_velocity_reset = 9
kind_of joint_position = 10
kind_of joint_velocity = 11

abbrev pub is_about : ℕ → Component → ℕ → Component → Bool
is_about e c k d = nat_beq e k && nat_beq (kind_of c) (kind_of d)

module _ {P : Type 0} where
  -- What these calls have last set a component to, where they have not removed it since.
  abbrev pub standing : ℕ → Component → List (Call P) → Option (Value P)
  standing e c [] = none
  standing e c (set_component k d v ∷ calls) =
      if is_about e c k d then some v else standing e c calls
  standing e c (remove_component k d ∷ calls) =
      if is_about e c k d then none else standing e c calls
  standing e c (request_remove_entity k ∷ calls) = standing e c calls
  standing e c (create_entities sdf ∷ calls) = standing e c calls
  standing e c (set_parent k l ∷ calls) = standing e c calls
  standing e c (enable_checks k ∷ calls) = standing e c calls

  -- What holds of the calls, and still does whatever is written that is no command to a model.
  pub record Stays (Q : List (Call P) → Type 0) : Type 0 where
    pub after_set :
        (calls : List (Call P)) (k : ℕ) (d : Component) (v : Value P)
        → 3 ≤ kind_of d
        → Q calls
        → Q (set_component k d v ∷ calls)
    pub after_removed :
        (calls : List (Call P)) (k : ℕ) (d : Component)
        → 3 ≤ kind_of d
        → Q calls
        → Q (remove_component k d ∷ calls)

  pub standing-Stays :
      (e : ℕ) (c : Component) (o : Option (Value P))
      → kind_of c ≤ 2
      → Stays (λ calls. standing e c calls ≡ o)
  standing-Stays e c o low = record {
    after_set = λ calls k d v high h. ground (arith, low, high, h);
    after_removed = λ calls k d high h. ground (arith, low, high, h);
  }

  either :
      (Q : List (Call P) → Type 0) (b : Bool) (x y : List (Call P))
      → Q x
      → Q y
      → Q (if b then x else y)
  either Q true x y h k = h
  either Q false x y h k = k

  module _ (ecm : Ecm P) (Q : List (Call P) → Type 0) (S : Stays Q) where
    reset_links-Stays :
        (model_ent : ℕ) (pose : P) (links : List (SdfLink P)) (calls : List (Call P))
        → Q calls
        → Q (reset_links ecm model_ent pose links calls)
    unfolding reset_links
    reset_links-Stays model_ent pose [] calls h = h
    reset_links-Stays model_ent pose (link ∷ links) calls h =
        let link_ent = ecm.link_by_name calls model_ent link.link_name in
        let placed = set_component link_ent pose_component (at_pose link.rel_pose) ∷ calls in
        let world = set_component link_ent world_pose (at_pose (ecm.compose pose link.rel_pose)) in
        let tracked = if ecm.has_world_pose placed link_ent then world ∷ placed else placed in
        let is_placed : Q placed = S.after_set calls link_ent _ _ (omega arith) h in
        let is_tracked : Q tracked =
          either Q (ecm.has_world_pose placed link_ent) (world ∷ placed) placed
            (S.after_set placed link_ent _ _ (omega arith) is_placed) is_placed in
        either Q (nat_beq link_ent 0) _ _ (reset_links-Stays model_ent pose links calls h) (
          reset_links-Stays model_ent pose links _ (
            S.after_set _ link_ent _ _ (omega arith)
              (S.after_removed tracked link_ent _ (omega arith) is_tracked)))

    reset_joint-Stays :
        (joint : ℕ) (calls : List (Call P)) → Q calls → Q (reset_joint ecm joint calls)
    unfolding reset_joint
    reset_joint-Stays joint calls h =
        let removed =
          remove_component joint joint_velocity_cmd
          ∷ remove_component joint joint_force_cmd
          ∷ calls in
        let dof : ℕ = elim (ecm.joint_size removed joint) [ none ↦ 1 | some n ↦ n ] in
        let is_removed : Q removed =
          S.after_removed _ joint _ (omega arith) (S.after_removed _ joint _ (omega arith) h) in
        either Q (nat_beq dof 0) _ _ is_removed (
          S.after_set _ joint _ _ (omega arith) (
            S.after_set _ joint _ _ (omega arith) (
              S.after_set _ joint _ _ (omega arith)
                (S.after_set _ joint _ _ (omega arith) is_removed))))

    reset_joints-Stays :
        (joints : List ℕ) (calls : List (Call P)) → Q calls → Q (reset_joints ecm joints calls)
    unfolding reset_joints
    reset_joints-Stays [] calls h = h
    reset_joints-Stays (joint ∷ joints) calls h =
        reset_joints-Stays joints _ (reset_joint-Stays joint calls h)

    -- A reset writes the three commands to the model, and then nothing that is one.
    pub reset_uav_commands-Stays :
        (model_ent : ℕ) (pose : P) (sdfs : Map Name (SdfModel P)) (calls calls' : List (Call P))
        → reset_uav_commands ecm model_ent pose sdfs calls ≡ some calls'
        → Q (
            set_component model_ent angular_velocity_cmd zero_vector
            ∷ set_component model_ent linear_velocity_cmd zero_vector
            ∷ set_component model_ent world_pose_cmd (at_pose pose)
            ∷ calls)
        → Q calls'
    unfolding reset_uav_commands
    reset_uav_commands-Stays model_ent pose sdfs calls calls' e h =
        go (find (ecm.name_of stopped model_ent) sdfs) e
      where
        stopped : List (Call P)
        stopped =
            set_component model_ent angular_velocity_cmd zero_vector
            ∷ set_component model_ent linear_velocity_cmd zero_vector
            ∷ set_component model_ent world_pose_cmd (at_pose pose)
            ∷ calls

        go :
            (o : Option (SdfModel P))
            → (elim o as (λ x. Option (List (Call P))) [
              | none ↦ none
              | some sdf ↦
                  let placed = reset_links ecm model_ent pose sdf.sdf_links stopped in
                  some (reset_joints ecm (ecm.joints placed model_ent) placed)
            ])
              ≡ some calls'
            → Q calls'
        go none e = absurd cc
        go (some sdf) e =
            let placed = reset_links ecm model_ent pose sdf.sdf_links stopped in
            let same : reset_joints ecm (ecm.joints placed model_ent) placed ≡ calls' = cc in
            subst Q same (
              reset_joints-Stays (ecm.joints placed model_ent) placed
                (reset_links-Stays model_ent pose sdf.sdf_links stopped h))

  pub found-Stays :
      (ecm : Ecm P)
      → Names ecm
      → (n : Name) (o : Option ℕ) → Stays (λ calls. ecm.entity_by_name calls n ≡ o)
  found-Stays ecm N n o = record {
    after_set = λ calls k d v high h. N.set_found calls n k d v ∙ h;
    after_removed = λ calls k d high h. N.removed_found calls n k d ∙ h;
  }
