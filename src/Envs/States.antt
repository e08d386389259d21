-- ===== src/Envs/States.antt =====
-- The states that an environment keeps of its links: `GazeboEnvpool::UpdateControlStates` of
-- envs/gazebo_envpool/gazebo_envpool.hh, and `merge_path` of its `SetEnvVars`.
pub mod Shifts
use gz_drl.Base.{
  ℕ, zero, suc, ◌||◌, Option, none, some, List, [], ◌∷◌, ◌++◌, if◌then◌else◌, Name, codes, name_beq,
  is_empty, nat_eq, name_eq, both_eq,
}
use gz_drl.Base.Map.{Map, find, insert, find-insert}

-- The maps from a state key. `V` is a state of 13 coefficients.
pub record States (V : Type 0) : Type 0 where
  pub current_state : Map Name V
  pub current_state_dot : Map Name V
  pub last_state : Map Name V
  pub last_state_dot : Map Name V

-- A model's name with a link's.
abbrev pub Link : Type 0
Link = Name × Name

-- The key of a link.
unfoldable pub state_key : Link → Name
state_key (model_name, link_name) = model_name ++ link_name

-- `m[key]`, which is made where it is missing.
abbrev pub value_or : {V : Type 0} → V → Option V → V
value_or made none = made
value_or made (some v) = v

-- `drl_server_->control_states[model][link]`, cast, behind its `update_control_states`; and what
-- `operator[]` makes of a missing state.
module _ {V : Type 0} (control : Link → V × V) (made : V) where
  unfoldable pub update_link : Link → States V → States V
  unfolding state_key
  update_link link s =
      let key = state_key link in
      record {
        current_state = insert key (control link).0 s.current_state;
        current_state_dot = insert key (control link).1 s.current_state_dot;
        last_state = insert key (value_or made (find key s.current_state)) s.last_state;
        last_state_dot = insert key (value_or made (find key s.current_state_dot)) s.last_state_dot;
      }

  unfoldable pub update_link_names : Name → List Name → States V → States V
  unfolding update_link
  update_link_names model_name [] s = s
  update_link_names model_name (link_name ∷ link_names) s =
      update_link_names model_name link_names (update_link (model_name, link_name) s)

  -- The models' names, each with its `model_link_names_`.
  unfoldable pub update_control_states : List (Name × List Name) → States V → States V
  unfolding update_link_names
  update_control_states [] s = s
  update_control_states ((model_name, link_names) ∷ models) s =
      update_control_states models (update_link_names model_name link_names s)

-- `existing` is a null pointer where it is `none`.
unfoldable pub merge_path : Name → Option Name → Name
merge_path [] none = []
merge_path [] (some existing) = existing
merge_path (c ∷ configured) none = c ∷ configured
merge_path (c ∷ configured) (some existing) =
    if is_empty existing || name_beq (c ∷ configured) existing
    then c ∷ configured
    else (c ∷ configured) ++ codes ":" ++ existing
