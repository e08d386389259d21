-- ===== src/Waypoints/Generators.antt =====
-- The periods and the generators of GzDRL/include/common/waypoint_generator.hh. `fuel` bounds the
-- rounds of each loop.
use gz_drl.Base.{ℕ, Option, none, some, List, [], ◌∷◌, Result, ok, throws, ◌>>=◌}
use gz_drl.Waypoints.{Arithmetic}
use gz_drl.Waypoints.Curves.{CurveState, FeasibilityLimits, throw_if_infeasible, make_point}
use gz_drl.Waypoints.Limits.{require, is_positive, validate_spacing, validate_limits}
use gz_drl.Waypoints.Loops.{Engine, then_points, validate_curve, waypoint_loop, circle_loop}
use gz_drl.Waypoints.Shapes.{
  Axis, wave, state_of, lissajous_2d, lissajous_yz, lissajous_3d, circle, greatest_of_two,
  greatest_of_three, period_of_two, period_of_three, validate_two, validate_three, validate_request,
}

-- Behind the tests of the arguments.
abbrev pub guarded :
    {B S : Type 0} → Result (Unit {0}) → S → Option (Result B × S) → Option (Result B × S)
guarded (throws e) s rest = some (throws e, s)
guarded (ok _) s rest = rest

abbrev pub with_period : {R B : Type 0} → Option R → (R → Option B) → Option B
with_period none next = none
with_period (some period) next = next period

module _ (A : Arithmetic) where
  unfoldable pub validate_lissajous_curve :
      ℕ → Axis A → Axis A → Axis A → FeasibilityLimits A → Option (Result (Unit {0}))
  unfolding validate_limits validate_three period_of_three validate_curve
  validate_lissajous_curve fuel x y z limits =
      elim (validate_limits A limits >>= λ _. validate_three A x y z) [
        | throws e ↦ some (throws e)
        | ok _ ↦ with_period (period_of_three A fuel x y z) (λ period. some (
            validate_curve A (λ u. state_of A (wave A x u) (wave A y u) (wave A z u)) period
              (greatest_of_three A x y z) limits))
      ]

module _ (A : Arithmetic) (E : Engine A) where
  -- What a request for waypoints gives, and the engine behind it.
  abbrev pub Generated : Type 0
  Generated = Option (Result (List (List A.Real)) × E.Rng)

  -- The generators of Lissajous curves behind their period.
  unfoldable pub waypoints_along :
      (A.Real → CurveState A)
      → A.Real
      → A.Real
      → A.Real
      → A.Real
      → FeasibilityLimits A
      → ℕ
      → E.Rng
      → Generated
  unfolding validate_curve make_point waypoint_loop
  waypoints_along evaluate max_frequency min_dist max_dist period limits fuel rng =
      then_points
        (validate_curve A evaluate period max_frequency limits >>= λ _.
          make_point A (evaluate (A.lit 0 0)))
        rng (waypoint_loop A E evaluate period min_dist max_dist limits fuel fuel (A.lit 0 0) rng)

  -- The estimate of how many there are, for which the source reserves memory, is left out.
  unfoldable pub generate_circle_waypoints :
      ℕ
      → A.Real
      → A.Real
      → A.Real
      → A.Real
      → A.Real
      → A.Real
      → FeasibilityLimits A
      → E.Rng
      → Generated
  unfolding validate_spacing validate_limits throw_if_infeasible circle_loop
  generate_circle_waypoints fuel radius center_x center_y min_dist max_dist z limits rng =
      let evaluate = circle A radius center_x center_y z in
      guarded
        (validate_request A min_dist max_dist limits >>= λ _.
          require (is_positive A radius ∷ []) >>= λ _.
          throw_if_infeasible A (evaluate (A.lit 0 0)) limits)
        rng
        (circle_loop A E evaluate radius min_dist max_dist
          (A.times radius limits.max_tangent_change_rad) fuel (A.lit 0 0) rng)

  unfoldable pub generate_lissajous_2d :
      ℕ → Axis A → Axis A → A.Real → A.Real → A.Real → FeasibilityLimits A → E.Rng → Generated
  unfolding validate_spacing validate_limits validate_two period_of_two waypoints_along
  generate_lissajous_2d fuel x y min_dist max_dist z limits rng =
      guarded (validate_request A min_dist max_dist limits >>= λ _. validate_two A x y) rng (
        with_period (period_of_two A fuel x y) (λ period.
          waypoints_along (lissajous_2d A x y z) (greatest_of_two A x y) min_dist max_dist period
            limits fuel rng))

  unfoldable pub generate_yz_lissajous :
      ℕ
      → Axis A
      → Axis A
      → A.Real
      → A.Real
      → A.Real
      → A.Real
      → FeasibilityLimits A
      → E.Rng
      → Generated
  unfolding validate_spacing validate_limits validate_two period_of_two waypoints_along
  generate_yz_lissajous fuel y z min_dist max_dist x_offset z_offset limits rng =
      guarded (validate_request A min_dist max_dist limits >>= λ _. validate_two A y z) rng (
        with_period (period_of_two A fuel y z) (λ period.
          waypoints_along (lissajous_yz A y z x_offset z_offset) (greatest_of_two A y z) min_dist
            max_dist period limits fuel rng))

  unfoldable pub generate_lissajous_3d :
      ℕ
      → Axis A
      → Axis A
      → Axis A
      → A.Real
      → A.Real
      → A.Real
      → FeasibilityLimits A
      → E.Rng
      → Generated
  unfolding validate_spacing validate_limits validate_three period_of_three waypoints_along
  generate_lissajous_3d fuel x y z min_dist max_dist z_offset limits rng =
      guarded (validate_request A min_dist max_dist limits >>= λ _. validate_three A x y z) rng (
        with_period (period_of_three A fuel x y z) (λ period.
          waypoints_along (lissajous_3d A x y z z_offset) (greatest_of_three A x y z) min_dist
            max_dist period limits fuel rng))

-- The calls of the generators, less what they all take.
pub data Request (A : Arithmetic) : Type 0 where
  -- The radius and the center.
  on_circle : A.Real → A.Real → A.Real → Request A
  in_xy : Axis A → Axis A → Request A
  -- With the offset along x.
  in_yz : Axis A → Axis A → A.Real → Request A
  in_space : Axis A → Axis A → Axis A → Request A

module _ (A : Arithmetic) (E : Engine A) where
  -- The height is the one of a plane curve, or the offset of one that moves up and down.
  unfoldable pub generate :
      ℕ → Request A → A.Real → A.Real → A.Real → FeasibilityLimits A → E.Rng → Generated A E
  unfolding generate_circle_waypoints generate_lissajous_2d generate_yz_lissajous
      generate_lissajous_3d
  generate fuel (on_circle radius center_x center_y) min_dist max_dist height limits rng =
      generate_circle_waypoints A E fuel radius center_x center_y min_dist max_dist height limits
        rng
  generate fuel (in_xy x y) min_dist max_dist height limits rng =
      generate_lissajous_2d A E fuel x y min_dist max_dist height limits rng
  generate fuel (in_yz y z x_offset) min_dist max_dist height limits rng =
      generate_yz_lissajous A E fuel y z min_dist max_dist x_offset height limits rng
  generate fuel (in_space x y z) min_dist max_dist height limits rng =
      generate_lissajous_3d A E fuel x y z min_dist max_dist height limits rng

module _ (A : Arithmetic) where
  -- The period of the curve of a request.
  unfoldable pub closing : ℕ → Request A → Option A.Real
  unfolding period_of_two period_of_three
  closing fuel (on_circle radius center_x center_y) = some (A.times (A.lit 2 0) A.pi)
  closing fuel (in_xy x y) = period_of_two A fuel x y
  closing fuel (in_yz y z x_offset) = period_of_two A fuel y z
  closing fuel (in_space x y z) = period_of_three A fuel x y z
