-- ===== src/Sim/Discovery.antt =====
-- How the constructor of `DRLHelperSystem` in GzDRL/src/rl_server.cc finds the models to look after,
-- the nested ones among them. A lookup by name in the world's description is a parameter.
pub mod Nested
pub mod Complete
use gz_drl.Base.{
  ℕ, zero, suc, Bool, false, ◌||◌, Option, none, some, List, [], ◌∷◌, ◌++◌, if◌then◌else◌, Name,
  codes, name_beq, nat_eq, name_eq, both_eq, runtime_error, Result, ok, throws, ◌>>=◌,
}
use gz_drl.Base.Map.{Map, emplace}

-- A model's description: its name and its nested models.
mutual
  pub data ModelTree : Type 0 where
    model : Name → Forest → ModelTree

  pub data Forest : Type 0 where
    no_models : Forest
    add_model : ModelTree → Forest → Forest

abbrev pub is_in : Name → List Name → Bool
is_in n [] = false
is_in n (m ∷ names) = name_beq m n || is_in n names

-- `rec`, of a model with this name: the names that it appends.
unfoldable pub nested_names : Name → Forest → List Name
nested_names name no_models = []
nested_names name (add_model (model n f) rest) =
    (name ++ codes "::" ++ n) ∷ (nested_names n f ++ nested_names name rest)

unfoldable pub nested_of : Option ModelTree → List Name
unfolding nested_names
nested_of none = []
nested_of (some (model name f)) = nested_names name f

-- The names that are not among the ones that were there before.
unfoldable pub push_missing : List Name → List Name → List Name
push_missing existing [] = []
push_missing existing (nm ∷ names) =
    if is_in nm existing then push_missing existing names else nm ∷ push_missing existing names

-- `world_ptr->ModelByName`.
module _ (model_by_name : Name → Option ModelTree) where
  unfoldable pub nested_model_names : List Name → List Name
  unfolding nested_of
  nested_model_names [] = []
  nested_model_names (name ∷ names) = nested_of (model_by_name name) ++ nested_model_names names

  unfoldable pub all_model_names : List Name → List Name
  unfolding nested_model_names push_missing
  all_model_names names = names ++ push_missing names (nested_model_names names)

  -- The loop that fills `model_sdf_objs`.
  unfoldable pub index_models : List Name → Map Name ModelTree → Result (Map Name ModelTree)
  index_models [] objs = ok objs
  index_models (name ∷ names) objs = elim (model_by_name name) [
    | none ↦ throws runtime_error
    | some m ↦ index_models names (emplace name m objs)
  ]

  -- The names of the models and their descriptions.
  unfoldable pub find_models : List Name → Result (List Name × Map Name ModelTree)
  unfolding all_model_names index_models
  find_models names =
      index_models (all_model_names names) [] >>= λ objs. ok (all_model_names names, objs)
