-- ===== src/Sim/Tests/Discovery.antt =====
-- Runs of the constructor's search for models, and its theorem at a concrete input.
use gz_drl.Base.{
  ◌≡◌, refl, ◌↔◌, true, false, ◌||◌, List, Option, none, some, [], ◌∷◌, ◌++◌, if◌then◌else◌, All,
  Name, codes, name_beq, nat_eq, name_eq, both_eq, runtime_error, ok, throws,
}
use gz_drl.Base.Map.{Map, find, emplace}
use gz_drl.Sim.Discovery.{
  ModelTree, model, no_models, add_model, is_in, nested_names, nested_of, push_missing,
  nested_model_names, all_model_names, index_models, find_models,
}
use gz_drl.Sim.Discovery.Nested.{IsFound, IsNested}
use gz_drl.Sim.Discovery.Complete.{find_models-Indexed}

abbrev arm : ModelTree
arm = model (codes "arm") no_models

-- A model with an arm, and a lookup that knows both by their scoped names.
abbrev robot : ModelTree
robot = model (codes "robot") (add_model arm no_models)

abbrev one_world : Name → Option ModelTree
one_world n =
    if name_beq n (codes "robot")
    then some robot
    else if name_beq n (codes "robot::arm")
    then some arm
    else none

one_world-IsFound : All (IsFound one_world) (codes "robot" ∷ [])
one_world-IsFound = ((add_model arm no_models, refl, (refl, tt), (refl, tt)), tt)

find_models-Indexed_example :
    (extra : List Name) × (objs : Map Name ModelTree) × (find_models one_world (codes "robot" ∷ [])
      ≡ ok ((codes "robot" ∷ []) ++ extra, objs))
    × ((n : Name)
        → (is_in n extra ≡ true)
          ↔ ((is_in n (codes "robot" ∷ []) ≡ false) × IsNested one_world (codes "robot" ∷ []) n))
    × ((n : Name)
        → find n objs
          ≡ (if is_in n (codes "robot" ∷ []) || is_in n extra then one_world n else none))
find_models-Indexed_example = find_models-Indexed one_world (codes "robot" ∷ []) one_world-IsFound

find_models_run :
    all_model_names one_world (codes "robot" ∷ []) ≡ codes "robot" ∷ codes "robot::arm" ∷ []
unfolding all_model_names nested_model_names nested_of nested_names push_missing
find_models_run = refl

-- A cell with a robot that has an arm, known by their scoped names.
abbrev cell : ModelTree
cell = model (codes "cell") (add_model robot no_models)

abbrev deep_world : Name → Option ModelTree
deep_world n =
    if name_beq n (codes "cell")
    then some cell
    else if name_beq n (codes "cell::robot")
    then some robot
    else if name_beq n (codes "cell::robot::arm")
    then some arm
    else none

-- The arm is looked up as robot::arm, which the world does not know.
deep_names_run :
    all_model_names deep_world (codes "cell" ∷ [])
    ≡ codes "cell" ∷ codes "cell::robot" ∷ codes "robot::arm" ∷ []
unfolding all_model_names nested_model_names nested_of nested_names push_missing
deep_names_run = refl

deep_world_run : find_models deep_world (codes "cell" ∷ []) ≡ throws runtime_error
unfolding find_models all_model_names nested_model_names nested_of nested_names push_missing
    index_models emplace
deep_world_run = refl
