-- ===== src/Sim/Commands.antt =====
-- The commands to links and joints: `set_rotor_velocity_cmd`, `set_velocity_cmd`,
-- `set_angular_velocity_cmd`, `set_ackermann_velocity_cmd`, `set_joint_position_cmd`, `set_wrench` and
-- `set_srt_cmd` of `DRLHelperSystem` in GzDRL/src/rl_server.cc. Each takes the calls to the simulation
-- made so far, the latest first, and returns them with its own.
pub mod Safety
pub mod Rotors
use gz_drl.Base.{
  ℕ, zero, suc, Bool, not, Option, none, some, List, ◌∷◌, nat_beq, if◌then◌else◌, Name, nat_eq,
  name_eq, both_eq, out_of_range, Result, ok, throws,
}
use gz_drl.Base.Map.{Map, find}
use gz_drl.Sim.Defs.{Helper}

-- The components that hold commands.
pub data CommandComponent : Type 0 where
  actuators linear_velocity angular_velocity ackermann_velocity joint_position_cmd :
      CommandComponent

-- Numbers, vectors and poses. `spin dir k c` is `-dir * k * c`.
pub record Mechanics : Type 1 where
  pub Real : Type 0
  pub Vector : Type 0
  pub Pose : Type 0
  pub Direction : Type 0
  pub zero_vec : Vector
  pub add : Vector → Vector → Vector
  pub rotate : Pose → Vector → Vector
  pub along_z : Real → Vector
  pub spin : Direction → Real → Real → Real

module _ (M : Mechanics) where
  pub data CommandCall : Type 0 where
    create : ℕ → CommandComponent → List M.Real → CommandCall
    set_data : ℕ → CommandComponent → List M.Real → CommandCall
    mark_periodic mark_unchanged : ℕ → CommandComponent → CommandCall
    add_world_wrench : ℕ → M.Vector → M.Vector → CommandCall

  -- What the simulation answers, given the calls before: whether an entity has a component, whether
  -- new data differ from what it holds, and the pose of a link, where it is known; and the joint of
  -- a model with a name, 0 where there is none.
  pub record Target : Type 0 where
    pub has : List CommandCall → ℕ → CommandComponent → Bool
    pub differs : List CommandCall → ℕ → CommandComponent → List M.Real → Bool
    pub world_pose_of : List CommandCall → ℕ → Option M.Pose
    pub joint_by_name : ℕ → Name → ℕ

module _ {M : Mechanics} (t : Target M) where
  -- The write that the setters share.
  unfoldable pub write_command :
      ℕ → CommandComponent → List M.Real → List (CommandCall M) → List (CommandCall M)
  write_command e c v calls =
      if t.has calls e c
      then (if t.differs calls e c v then mark_periodic e c else mark_unchanged e c)
        ∷ set_data e c v
        ∷ calls
      else create e c v ∷ calls

-- `models.find` and `links.at(..).find`: the link, `none` where the setter returns early. The first
-- argument is whether the system has been configured.
abbrev pub link_in : Option (Map Name ℕ) → Name → Result (Option ℕ)
link_in none link_name = throws out_of_range
link_in (some row) link_name = ok (find link_name row)

abbrev pub link_of_model : Option ℕ → Option (Map Name ℕ) → Name → Result (Option ℕ)
link_of_model none row link_name = ok none
link_of_model (some model) row link_name = link_in row link_name

module _ {P : Type 0} where
  unfoldable pub find_link : Bool → Name → Name → Helper P → Result (Option ℕ)
  find_link configured model_name link_name h =
      if not configured
      then ok none
      else link_of_model (find model_name h.models) (find model_name h.cached_links) link_name

  unfoldable pub find_model : Bool → Name → Helper P → Option ℕ
  find_model configured model_name h = if not configured then none else find model_name h.models

-- An early return leaves the calls as they are.
abbrev pub on_link :
    {A : Type 0} → Result (Option ℕ) → (ℕ → List A → List A) → List A → Result (List A)
on_link (throws e) f calls = throws e
on_link (ok none) f calls = ok calls
on_link (ok (some link)) f calls = ok (f link calls)

-- The setters of a component of a link, which differ in the component alone.
pub data LinkCommand : Type 0 where
  rotor_velocity velocity angular ackermann : LinkCommand

abbrev pub component_of : LinkCommand → CommandComponent
component_of rotor_velocity = actuators
component_of velocity = linear_velocity
component_of angular = angular_velocity
component_of ackermann = ackermann_velocity

module _ {M : Mechanics} (t : Target M) where
  -- A joint is a model's, so that the cache of links is not asked.
  abbrev pub on_joint : Option ℕ → Name → List M.Real → List (CommandCall M) → List (CommandCall M)
  unfolding write_command
  on_joint none joint_name cmd calls = calls
  on_joint (some model) joint_name cmd calls =
      let joint = t.joint_by_name model joint_name in
      if nat_beq joint 0 then calls else write_command t joint joint_position_cmd cmd calls

module _ {M : Mechanics} {P : Type 0} (t : Target M) where
  unfoldable pub set_link_cmd :
      LinkCommand
      → Bool
      → Name
      → Name
      → List M.Real
      → Helper P
      → List (CommandCall M)
      → Result (List (CommandCall M))
  unfolding find_link write_command
  set_link_cmd kind configured model_name link_name cmd h calls =
      on_link (find_link configured model_name link_name h)
        (λ link. write_command t link (component_of kind) cmd) calls

  unfoldable pub set_joint_position_cmd :
      Bool → Name → Name → List M.Real → Helper P → List (CommandCall M) → List (CommandCall M)
  unfolding find_model write_command
  set_joint_position_cmd configured model_name joint_name cmd h calls =
      on_joint t (find_model configured model_name h) joint_name cmd calls

module _ {M : Mechanics} {P : Type 0} where
  unfoldable pub set_wrench :
      Bool
      → Name
      → Name
      → M.Vector
      → M.Vector
      → Helper P
      → List (CommandCall M)
      → Result (List (CommandCall M))
  unfolding find_link
  set_wrench configured model_name link_name force moments h calls =
      on_link (find_link configured model_name link_name h)
        (λ link cs. add_world_wrench link force moments ∷ cs) calls
