-- ===== src/Sim/Controls.antt =====
-- The states that controllers read: `DRLServer::update_control_states`, and the markers that follow
-- them, `set_trajectory_trace` and `set_marker` of GzDRL/src/rl_server.cc.
pub mod Current
use gz_drl.Base.{
  ℕ, zero, suc, Bool, true, false, Option, none, some, List, [], ◌∷◌, Name, nat_eq, name_eq,
  both_eq, out_of_range, Result, ok, throws, ◌>>=◌,
}
use gz_drl.Base.Map.{Map, find, insert}
use gz_drl.Sim.Markers.{MarkerManager, new_manager, reset_markers, set_marker}
use gz_drl.Sim.Views.{Reals, GzState, View, vector, states_of}

-- A state of 13 coefficients and its derivative.
pub record Control (R : Reals) : Type 0 where
  pub state : ℕ → R.Real
  pub state_dot : ℕ → R.Real

-- `control_states`, by the model's name and the link's.
abbrev pub Controls : Reals → Type 0
Controls R = Map Name (Map Name (Control R))

-- `uav_controllers::quaternion_derivative`, of a quaternion and an angular velocity.
abbrev pub Derivative : Reals → Type 0
Derivative R = (ℕ → R.Real) → (ℕ → R.Real) → ℕ → R.Real

-- `control_states[name]`, which is made where it is missing.
abbrev pub row_of : {V : Type 0} → Option (Map Name V) → Map Name V
row_of none = []
row_of (some row) = row

module _ {R : Reals} (quaternion_derivative : Derivative R) where
  unfoldable pub control_of : GzState R → Control R
  control_of p =
      let cs =
        vector R.nought
          (p 0 ∷ p 1 ∷ p 2 ∷ p 7 ∷ p 8 ∷ p 9 ∷ p 3 ∷ p 4 ∷ p 5 ∷ p 6 ∷ p 10 ∷ p 11 ∷ p 12 ∷ []) in
      let quat = vector R.nought (cs 6 ∷ cs 7 ∷ cs 8 ∷ cs 9 ∷ []) in
      let omega = vector R.nought (cs 10 ∷ cs 11 ∷ cs 12 ∷ []) in
      let quat_deriv = quaternion_derivative quat omega in
      record {
        state = cs;
        state_dot = vector R.nought (
            p 7
            ∷ p 8
            ∷ p 9
            ∷ p 13
            ∷ p 14
            ∷ p 15
            ∷ quat_deriv 0
            ∷ quat_deriv 1
            ∷ quat_deriv 2
            ∷ quat_deriv 3
            ∷ p 16
            ∷ p 17
            ∷ p 18
            ∷ []);
      }

  -- The callback for each link of a model.
  unfoldable pub update_links : Name → List (Name × GzState R) → Controls R → Controls R
  unfolding control_of
  update_links name [] controls = controls
  update_links name ((link_name, pose_data) ∷ states) controls =
      let row = row_of (find name controls) in
      update_links name states (insert name (insert link_name (control_of pose_data) row) controls)

  unfoldable pub update_control_states :
      {C : Type 0} → List Name → Map Name (View R C) → Controls R → Controls R
  unfolding update_links
  update_control_states [] views controls = controls
  update_control_states (name ∷ names) views controls =
      update_control_states names views (update_links name (states_of (find name views)) controls)

-- `marker_managers`, by the model's name and the link's.
abbrev pub Traces : Type 0 → Type 0
Traces P = Map (Name × Name) (MarkerManager P)

module _ {P : Type 0} where
  -- A trace that is there stays.
  unfoldable pub trace_with :
      Option (MarkerManager P)
      → Result (MarkerManager P)
      → Name × Name
      → Traces P
      → Result (Traces P)
  trace_with (some m) made key traces = ok traces
  trace_with none made key traces = made >>= λ m. ok (insert key m traces)

  unfoldable pub set_trajectory_trace : Name → Name → ℕ → ℕ → Bool → Traces P → Result (Traces P)
  unfolding trace_with new_manager
  set_trajectory_trace model_name link_name max_markers marker_interval accepted traces =
      trace_with (find (model_name, link_name) traces)
        (new_manager max_markers marker_interval accepted) (model_name, link_name) traces

  -- The loop over the markers at the end of `reset_pos` and of `respawn_model`.
  unfoldable pub reset_traces : Traces P → Traces P
  unfolding reset_markers
  reset_traces [] = []
  reset_traces ((key, m) ∷ traces) = (key, reset_markers m) ∷ reset_traces traces

module _ {R : Reals} where
  -- `control_states.at(model_name).at(link_name)`.
  unfoldable pub control_at : Name → Name → Controls R → Option (Control R)
  control_at model_name link_name controls = elim (find model_name controls) [
    | none ↦ none
    | some row ↦ find link_name row
  ]

  -- The position in a state.
  abbrev pub position : Control R → List R.Real
  position c = c.state 0 ∷ c.state 1 ∷ c.state 2 ∷ []

  unfoldable pub mark :
      Option (MarkerManager (List R.Real))
      → Option (Control R)
      → Name × Name
      → Traces (List R.Real)
      → Result Bool × Traces (List R.Real)
  unfolding set_marker
  mark none c key traces = (ok false, traces)
  mark (some m) none key traces = (throws out_of_range, traces)
  mark (some m) (some c) key traces = (ok true, insert key (set_marker (position c) m) traces)

  -- `DRLServer::set_marker`.
  unfoldable pub set_link_marker :
      Name → Name → Controls R → Traces (List R.Real) → Result Bool × Traces (List R.Real)
  unfolding control_at mark
  set_link_marker model_name link_name controls traces =
      mark (find (model_name, link_name) traces) (control_at model_name link_name controls)
        (model_name, link_name) traces
