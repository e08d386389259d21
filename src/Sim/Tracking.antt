-- ===== src/Sim/Tracking.antt =====
-- The loops in which a controller drives a link: `control_with_rotor_velocity` and
-- `control_with_wrench` of GzDRL/src/rl_server.cc. The simulation, its views and what a command with
-- the step behind it does to it are parameters; commands and steps may throw. The number of
-- rounds is an `int` in the source; 0 stands for every number that is not positive.

pub mod Latest
use gz_drl.Base.{
  ℕ, zero, suc, Bool, true, false, Option, none, some, List, [], ◌∷◌, Name, nat_eq, name_eq,
  both_eq, out_of_range, Result, ok, throws,
}
use gz_drl.Base.Map.{Map, find}
use gz_drl.Sim.Views.{Reals, View, vector}
use gz_drl.Sim.Controls.{
  Control, Controls, Derivative, Traces, control_at, mark, update_control_states,
}

-- `act` sends a command and runs the simulation for one step. `Memory` is what the controllers keep
-- between their calls, such as the integral of an error.
pub record Plant (R : Reals) (C : Type 0) (K : Type 0) : Type 1 where
  pub Sim : Type 0
  pub Memory : Type 0
  pub views : Sim → Map Name (View R C)
  pub act : Name → Name → K → Sim → Result (Unit {0}) × Sim

-- The part of a server that a loop changes.
pub record Tracked (R : Reals) (W M : Type 0) : Type 0 where
  pub sim : W
  pub memory : M
  pub controls : Controls R
  pub traces : Traces (List R.Real)

-- What a reference to an entry reads, which was `c`: an entry is never removed.
abbrev pub current : {R : Reals} → Control R → Option (Control R) → Control R
current c none = c
current c (some c') = c'

-- What is left of the answer of a marker.
abbrev pub done : Result Bool → Result (Unit {0})
done (throws e) = throws e
done (ok b) = ok tt

-- A force and moments.
abbrev pub Wrench : Reals → Type 0
Wrench R = (ℕ → R.Real) × (ℕ → R.Real)

-- A `UAVController` with the state that is desired.
pub record UavController (R : Reals) (M : Type 0) : Type 0 where
  pub calculate_force : M → Control R → (ℕ → R.Real) × M
  pub calculate_moments : M → Control R → (ℕ → R.Real) → (ℕ → R.Real) × M

module _ {R : Reals} {M : Type 0} (rotate : (ℕ → R.Real) → (ℕ → R.Real) → ℕ → R.Real) where
  -- The force along the body's z axis, and the moments, both in the world. `force << 0.0, 0.0, ...`
  -- has written two noughts by the time the rotated force is read.
  unfoldable pub wrench_of : UavController R M → M → Control R → Wrench R × M
  wrench_of ctl m c =
      let (force, m1) = ctl.calculate_force m c in
      let (moments, m2) = ctl.calculate_moments m1 c force in
      let q = vector R.nought (c.state 6 ∷ c.state 7 ∷ c.state 8 ∷ c.state 9 ∷ []) in
      let half_written = vector R.nought (R.nought ∷ R.nought ∷ force 2 ∷ []) in
      let along = vector R.nought (R.nought ∷ R.nought ∷ R.rotate_reverse q half_written 2 ∷ []) in
      ((rotate q along, rotate q moments), m2)

module _ {R : Reals} {C K : Type 0} (d : Derivative R) (P : Plant R C K) (names : List Name) where
  unfoldable pub refresh : Tracked R P.Sim P.Memory → Tracked R P.Sim P.Memory
  refresh s = record s { controls = update_control_states d names (P.views s.sim) s.controls }

  -- The rounds of a loop.
  unfoldable pub track :
      Name
      → Name
      → (P.Memory → Control R → K × P.Memory)
      → ℕ
      → Control R
      → Tracked R P.Sim P.Memory
      → Result (Unit {0}) × Tracked R P.Sim P.Memory
  unfolding refresh control_at
  track model_name link_name command zero c s = (ok tt, s)
  track model_name link_name command (suc n) c s =
      let s' = refresh s in
      let c' = current c (control_at model_name link_name s'.controls) in
      let commanded = command s'.memory c' in
      let acted = P.act model_name link_name commanded.0 s'.sim in
      let s'' = record s' { sim = acted.1; memory = commanded.1 } in
      let rest = track model_name link_name command n c' s'' in
      elim acted.0 [ throws e ↦ (throws e, s'') | ok _ ↦ rest ]

  -- The marker behind the loop.
  unfoldable pub then_mark :
      Name
      → Name
      → Result (Unit {0}) × Tracked R P.Sim P.Memory
      → Result (Unit {0}) × Tracked R P.Sim P.Memory
  unfolding mark control_at
  then_mark model_name link_name (throws e, s) = (throws e, s)
  then_mark model_name link_name (ok _, s) =
      let marked =
        mark (find (model_name, link_name) s.traces) (control_at model_name link_name s.controls)
          (model_name, link_name) s.traces in
      (done marked.0, record s { traces = marked.1 })

  -- From the entry of the link on, which `at` looks up.
  unfoldable pub track_from :
      Name
      → Name
      → (P.Memory → Control R → K × P.Memory)
      → ℕ
      → Option (Control R)
      → Tracked R P.Sim P.Memory
      → Result (Unit {0}) × Tracked R P.Sim P.Memory
  unfolding track then_mark
  track_from model_name link_name command n none s = (throws out_of_range, s)
  track_from model_name link_name command n (some c) s =
      then_mark model_name link_name (track model_name link_name command n c s)

  -- `controllers` has the command that a controller and its map to the actuators compute.
  unfoldable pub control_with_rotor_velocity :
      Map (Name × Name) (P.Memory → Control R → K × P.Memory)
      → Name
      → Name
      → ℕ
      → Tracked R P.Sim P.Memory
      → Result (Unit {0}) × Tracked R P.Sim P.Memory
  unfolding track_from refresh control_at
  control_with_rotor_velocity controllers model_name link_name n s =
      elim (find (model_name, link_name) controllers) [
        | none ↦ (throws out_of_range, s)
        | some command ↦
            let s' = refresh s in
            track_from model_name link_name command n (control_at model_name link_name s'.controls)
              s'
      ]

module _ {R : Reals} {C : Type 0} (d : Derivative R) (P : Plant R C (Wrench R))
    (rotate : (ℕ → R.Real) → (ℕ → R.Real) → ℕ → R.Real) (names : List Name) where
  unfoldable pub control_with_wrench :
      Map (Name × Name) (UavController R P.Memory)
      → Name
      → Name
      → ℕ
      → Tracked R P.Sim P.Memory
      → Result (Unit {0}) × Tracked R P.Sim P.Memory
  unfolding track_from control_at wrench_of
  control_with_wrench controllers model_name link_name n s =
      elim (find (model_name, link_name) controllers) [
        | none ↦ (throws out_of_range, s)
        | some ctl ↦
            track_from d P names model_name link_name (wrench_of rotate ctl) n
              (control_at model_name link_name s.controls) s
      ]
