-- ===== src/Sim/Tests/Allocation.antt =====
-- Runs of the allocation matrices, and their theorem at a concrete input.
use gz_drl.Base.{
  ℕ, ◌+◌, ◌*◌, ◌/◌, ◌≡◌, refl, ◌↔◌, some, List, [], ◌∷◌, Name, codes, nat_eq, name_eq, both_eq,
  runtime_error, ok, throws,
}
use gz_drl.Base.Map.{Map, find}
use gz_drl.Sim.Allocation.{
  Turning, Plugin, Description, Column, column, columns, with_column, matrix_of, of_rotors,
  of_plugin, of_description, find_plugin, get_rotor_thrust_allocation_matrix,
  allocation_matrix_of_rotors,
}
use gz_drl.Sim.Allocation.Columns.{Fits, FitsPlugin, allocation_matrix_of_rotors-Fits}

-- Numbers in place of floating point; a number stands for its negative.
abbrev some_turning : Turning
some_turning = record {
  Real = ℕ;
  Direction = ℕ;
  one = 1;
  negative = λ x. 100 + x;
  over = λ a b. a / b;
  yaw = λ d k. 10 * d + k;
}

abbrev uav : Name
uav = codes "uav"

abbrev other_plugin : Plugin some_turning
other_plugin = record {
  plugin_name = codes "other";
  turning_directions = [];
  link_names = [];
  thrust_const = 1;
  torque_const = 1;
}

abbrev some_descriptions : Map Name (Description some_turning)
some_descriptions =
    (
      uav,
      record {
        positions = (codes "front", (1, 2)) ∷ (codes "back", (3, 4)) ∷ [];
        plugins =
            other_plugin
            ∷ record {
              plugin_name = codes "gz::sim::systems::MultiRotorPlugin";
              turning_directions = 1 ∷ 2 ∷ [];
              link_names = codes "back" ∷ codes "front" ∷ [];
              thrust_const = 2;
              torque_const = 6;
            }
            ∷ [];
      },
    )
    ∷ []

abbrev some_columns : List (Column some_turning)
some_columns = (1, 4, 103, 13) ∷ (1, 2, 101, 23) ∷ []

allocation_matrix_of_rotors-Fits_example :
    ((allocation_matrix_of_rotors uav
          (codes "back" ∷ codes "front" ∷ [])
          (1 ∷ 2 ∷ [])
          3
          some_descriptions
        ≡ ok some_columns)
      ↔ ((m : Description some_turning) × (find uav some_descriptions ≡ some m)
          × Fits some_turning m.positions 3
              (codes "back" ∷ codes "front" ∷ [])
              (1 ∷ 2 ∷ [])
              some_columns))
    × ((get_rotor_thrust_allocation_matrix uav some_descriptions ≡ ok some_columns) ↔ (
        (m : Description some_turning) × (find uav some_descriptions ≡ some m)
        × FitsPlugin some_columns m))
allocation_matrix_of_rotors-Fits_example =
    allocation_matrix_of_rotors-Fits uav (codes "back" ∷ codes "front" ∷ []) (1 ∷ 2 ∷ []) 3
      some_descriptions some_columns

plugin_run : get_rotor_thrust_allocation_matrix uav some_descriptions ≡ ok some_columns
unfolding get_rotor_thrust_allocation_matrix of_description of_plugin find_plugin matrix_of columns
    with_column column find
plugin_run = refl

missing_link_run :
    allocation_matrix_of_rotors uav (codes "side" ∷ []) (1 ∷ []) 3 some_descriptions
    ≡ throws runtime_error
unfolding allocation_matrix_of_rotors of_rotors matrix_of columns with_column find
missing_link_run = refl
