-- ===== src/Sim/Tests/Tracking.antt =====
-- Runs of the loops of controllers, and their theorems at concrete inputs.
use gz_drl.Base.{
  ℕ, ◌+◌, ◌≡◌, refl, some, none, [], ◌∷◌, arith, Name, nat_eq, name_eq, both_eq, out_of_range, ok,
  throws,
}
use gz_drl.Base.Map.{Map, IsUnique, find}
use gz_drl.Sim.Views.{View, states_of}
use gz_drl.Sim.Controls.{Control, control_of, control_at}
use gz_drl.Sim.Tests.Views.{some_reals, base, uav, one_view, some_derivative}
use gz_drl.Sim.Tracking.{
  Plant, Tracked, Wrench, UavController, wrench_of, control_with_rotor_velocity,
  control_with_wrench,
}
use gz_drl.Sim.Tracking.Latest.{
  closed_loop, effect, control_with_rotor_velocity-closed_loop, control_with_wrench-closed_loop,
}

-- The state of the link is the number that the simulation has come to.
abbrev views_at : ℕ → Map Name (View some_reals ℕ)
views_at w = (uav, record one_view { state_map = (base, λ i. w) ∷ [] }) ∷ []

views_at-IsUnique : (w : ℕ) (m : Name) → IsUnique (states_of (find m (views_at w)))
unfolding find
views_at-IsUnique w m = ground arith

-- A command is added.
abbrev some_plant : Plant some_reals ℕ ℕ
some_plant = record { Sim = ℕ; Memory = ℕ; views = views_at; act = λ n k c w. (ok tt, w + c) }

-- Twice the state, and one for each command before.
abbrev doubling : ℕ → Control some_reals → ℕ × ℕ
doubling m c = (c.state 0 + c.state 1 + m, m + 1)

abbrev at_three : Tracked some_reals ℕ ℕ
at_three = record { sim = 3; memory = 0; controls = []; traces = [] }

control_with_rotor_velocity-closed_loop_example :
    effect some_derivative some_plant (
      control_with_rotor_velocity some_derivative some_plant
        (uav ∷ [])
        (((uav, base), doubling) ∷ [])
        uav
        base
        2
        at_three)
    ≡ closed_loop some_derivative some_plant uav base doubling (λ w i. w) 2 (3, 0)
unfolding find
control_with_rotor_velocity-closed_loop_example =
    control_with_rotor_velocity-closed_loop some_derivative some_plant (uav ∷ []) uav base
      (λ w i. w) refl views_at-IsUnique (λ w. refl) (((uav, base), doubling) ∷ []) doubling 2
      at_three refl

-- From 3 to 9, and to 28.
closed_loop_run :
    closed_loop some_derivative some_plant uav base doubling (λ w i. w) 2 (3, 0) ≡ (ok tt, 28, 2)
unfolding control_of
closed_loop_run = refl

-- The same with wrenches, of which the force's last coefficient is added.
abbrev wrench_plant : Plant some_reals ℕ (Wrench some_reals)
wrench_plant = record { Sim = ℕ; Memory = ℕ; views = views_at; act = λ n k c w. (ok tt, w + c.0 2) }

abbrev some_controller : UavController some_reals ℕ
some_controller = record {
  calculate_force = λ m c. (c.state, m + 1);
  calculate_moments = λ m c f. (c.state_dot, m);
}

-- A control state of the link is kept, which is not the one measured.
abbrev with_control : Tracked some_reals ℕ ℕ
with_control = record at_three {
  controls = (uav, (base, record { state = λ i. 7; state_dot = λ i. 7 }) ∷ []) ∷ [];
}

control_with_wrench-closed_loop_example :
    effect some_derivative wrench_plant (
      control_with_wrench some_derivative wrench_plant
        (λ q v. v)
        (uav ∷ [])
        (((uav, base), some_controller) ∷ [])
        uav
        base
        2
        with_control)
    ≡ (elim (control_at {R = some_reals} uav base with_control.controls) [
      | none ↦ (throws out_of_range, 3, 0)
      | some _ ↦
          closed_loop some_derivative wrench_plant uav base
            (wrench_of (λ q v. v) some_controller)
            (λ w i. w)
            2
            (3, 0)
    ])
unfolding find
control_with_wrench-closed_loop_example =
    control_with_wrench-closed_loop some_derivative wrench_plant (uav ∷ []) uav base (λ w i. w) refl
      views_at-IsUnique (λ w. refl) (λ q v. v) (((uav, base), some_controller) ∷ []) some_controller
      2 with_control refl
