-- ===== src/Sim/Allocation.antt =====
-- `get_rotor_thrust_allocation_matrix` of `DRLHelperSystem` in GzDRL/src/rl_server.cc, of a rotor
-- plugin and of given rotors. A matrix is the list of its columns.
pub mod Columns
use gz_drl.Base.{
  ℕ, zero, suc, Option, none, some, List, [], ◌∷◌, nat_beq, if◌then◌else◌, length, Name, codes,
  name_beq, nat_eq, name_eq, both_eq, runtime_error, Result, ok, throws, ◌>>=◌,
}
use gz_drl.Base.Map.{Map, find}

-- Numbers, and directions of turning. `yaw d k` is `-d * k`.
pub record Turning : Type 1 where
  pub Real : Type 0
  pub Direction : Type 0
  pub one : Real
  pub negative : Real → Real
  pub over : Real → Real → Real
  pub yaw : Direction → Real → Real

module _ (T : Turning) where
  -- What is read of the element of a plugin: a list that is missing is empty.
  pub record Plugin : Type 0 where
    pub plugin_name : Name
    pub turning_directions : List T.Direction
    pub link_names : List Name
    pub thrust_const : T.Real
    pub torque_const : T.Real

  -- The links with the X and Y of their poses in the model, and the plugins.
  pub record Description : Type 0 where
    pub positions : Map Name (T.Real × T.Real)
    pub plugins : List Plugin

  -- Thrust, and the moments about X, Y and Z.
  abbrev pub Column : Type 0
  Column = T.Real × T.Real × T.Real × T.Real

module _ (T : Turning) where
  unfoldable pub column : T.Real × T.Real → T.Direction → T.Real → Column T
  column (x, y) d k = (T.one, y, T.negative x, T.yaw d k)

  -- The column of a rotor in front of the rest, where its link is there.
  unfoldable pub with_column :
      Option (T.Real × T.Real)
      → T.Direction
      → T.Real
      → Result (List (Column T))
      → Result (List (Column T))
  unfolding column
  with_column none d k rest = throws runtime_error
  with_column (some p) d k rest = rest >>= λ cs. ok (column p d k ∷ cs)

  -- The loop over the rotors; the two lists have one length.
  unfoldable pub columns :
      Map Name (T.Real × T.Real) → List Name → List T.Direction → T.Real → Result (List (Column T))
  unfolding with_column
  columns positions [] dirs k = ok []
  columns positions (n ∷ names) [] k = ok []
  columns positions (n ∷ names) (d ∷ dirs) k =
      with_column (find n positions) d k (columns positions names dirs k)

module _ {T : Turning} where
  unfoldable pub find_plugin : List (Plugin T) → Option (Plugin T)
  find_plugin [] = none
  find_plugin (p ∷ plugins) =
      if name_beq p.plugin_name (codes "gz::sim::systems::MultiRotorPlugin")
      then some p
      else find_plugin plugins

  -- The test of the sizes and the loop.
  unfoldable pub matrix_of :
      Description T → List Name → List T.Direction → T.Real → Result (List (Column T))
  unfolding columns
  matrix_of m names dirs k =
      if nat_beq (length names) (length dirs)
      then columns T m.positions names dirs k
      else throws runtime_error

  unfoldable pub of_plugin : Description T → Option (Plugin T) → Result (List (Column T))
  unfolding matrix_of
  of_plugin m none = throws runtime_error
  of_plugin m (some p) =
      matrix_of m p.link_names p.turning_directions (T.over p.torque_const p.thrust_const)

  unfoldable pub of_description : Option (Description T) → Result (List (Column T))
  unfolding of_plugin find_plugin
  of_description none = throws runtime_error
  of_description (some m) = of_plugin m (find_plugin m.plugins)

  unfoldable pub get_rotor_thrust_allocation_matrix :
      Name → Map Name (Description T) → Result (List (Column T))
  unfolding of_description
  get_rotor_thrust_allocation_matrix model_name ds = of_description (find model_name ds)

  unfoldable pub of_rotors :
      Option (Description T) → List Name → List T.Direction → T.Real → Result (List (Column T))
  unfolding matrix_of
  of_rotors none rotor_links turning_dir ktau = throws runtime_error
  of_rotors (some m) rotor_links turning_dir ktau = matrix_of m rotor_links turning_dir ktau

  -- The overload with the rotors' links, their directions and a ratio of torque to thrust.
  unfoldable pub allocation_matrix_of_rotors :
      Name
      → List Name
      → List T.Direction
      → T.Real
      → Map Name (Description T)
      → Result (List (Column T))
  unfolding of_rotors
  allocation_matrix_of_rotors model_name rotor_links turning_dir ktau ds =
      of_rotors (find model_name ds) rotor_links turning_dir ktau
