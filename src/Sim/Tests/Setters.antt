-- ===== src/Sim/Tests/Setters.antt =====
-- A run of the setters of commands in the body's frame, and their theorem at a concrete input.
use gz_drl.Base.{
  none, some, ℕ, ◌+◌, ◌-◌, ◌*◌, ◌≡◌, refl, List, [], ◌∷◌, ltb, ok, throws, nat_eq, name_eq, both_eq,
}
use gz_drl.Base.Map.{find, insert}
use gz_drl.Sim.Views.{states_of}
use gz_drl.Sim.Controls.{control_at}
use gz_drl.Sim.Controls.Current.{entry}
use gz_drl.Sim.Tests.Views.{some_reals, base, uav, some_derivative, some_views, some_views-IsUnique}
use gz_drl.Sim.Setters.{
  Flight, body_torques, Sent, wrench, promised, set_body_cmd, set_body_cmd-entry,
}

-- Numbers in place of floating point; a rotation does nothing.
abbrev some_flight : Flight
some_flight = record {
  reals = some_reals;
  gt = λ a b. ltb b a;
  decay = λ dt tau. dt;
  blend = λ a p x. p + x;
  of_two_lengths = λ p x. x;
  minus = λ a b. a - b;
  times = λ a b. a * b;
  rotate = λ q v. v;
}

set_body_cmd-entry_example :
    ((set_body_cmd some_flight some_derivative body_torques
        (uav ∷ [])
        some_views
        1
        uav
        base
        (5 ∷ 6 ∷ 7 ∷ 8 ∷ [])
        ([], [])).0
      ≡ (promised some_flight body_torques 1 uav base (5 ∷ 6 ∷ 7 ∷ 8 ∷ []) [] (
          entry some_derivative
            (find base (states_of (find uav some_views)))
            (control_at uav base []))).0)
    × ((set_body_cmd some_flight some_derivative body_torques
          (uav ∷ [])
          some_views
          1
          uav
          base
          (5 ∷ 6 ∷ 7 ∷ 8 ∷ [])
          ([], [])).2
        ≡ (promised some_flight body_torques 1 uav base (5 ∷ 6 ∷ 7 ∷ 8 ∷ []) [] (
            entry some_derivative
              (find base (states_of (find uav some_views)))
              (control_at uav base []))).1)
set_body_cmd-entry_example =
    set_body_cmd-entry some_flight some_derivative body_torques (uav ∷ []) some_views 1 uav base
      (5 ∷ 6 ∷ 7 ∷ 8 ∷ []) [] [] refl some_views-IsUnique

abbrev force_up : List (Sent some_flight) → ℕ
force_up [] = 0
force_up (wrench force moments ∷ sent) = force 2
force_up (_ ∷ sent) = 0

abbrev sent_run : List (Sent some_flight)
sent_run =
    elim (set_body_cmd some_flight some_derivative body_torques (uav ∷ []) some_views 1 uav base
        (5 ∷ 6 ∷ 7 ∷ 8 ∷ []) ([], [])).0
      as (λ _. List (Sent some_flight)) [ none ↦ [] | some (throws e) ↦ [] | some (ok sent) ↦ sent ]

thrust_run : force_up sent_run ≡ 5
unfolding set_body_cmd find insert
thrust_run = refl
