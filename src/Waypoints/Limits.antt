-- ===== src/Waypoints/Limits.antt =====
-- The tests of the arguments of GzDRL/include/common/waypoint_generator.hh.
use gz_drl.Base.{
  Bool, true, false, not, ◌&&◌, ◌||◌, List, [], ◌∷◌, leb, invalid_argument, Result, ok, throws,
}
use gz_drl.Waypoints.{Arithmetic}
use gz_drl.Waypoints.Curves.{FeasibilityLimits}

-- The first condition that does not hold throws.
abbrev pub require : List Bool → Result (Unit {0})
require [] = ok tt
require (true ∷ conditions) = require conditions
require (false ∷ conditions) = throws invalid_argument

module _ (A : Arithmetic) where
  abbrev pub is_positive : A.Real → Bool
  is_positive value = A.lt (A.lit 0 0) value

  unfoldable pub validate_frequency : A.Real → Result (Unit {0})
  validate_frequency frequency = require (
      is_positive frequency
      ∷ not (A.lt (A.lit 1 5) (A.abs (A.minus frequency (A.round frequency))))
      ∷ [])

  unfoldable pub validate_spacing : A.Real → A.Real → Result (Unit {0})
  validate_spacing min_dist max_dist =
      require ((is_positive min_dist && is_positive max_dist) ∷ not (A.lt max_dist min_dist) ∷ [])

  -- A limit that is not finite is not tested.
  abbrev pub if_finite : A.Real → Bool → Bool
  if_finite limit test = not (A.is_finite limit) || test

  -- What `ValidateLimits` requires, in order.
  abbrev pub limit_conditions : FeasibilityLimits A → List Bool
  limit_conditions limits =
      (is_positive limits.min_speed
        && is_positive limits.max_speed
        && not (A.lt limits.max_speed limits.min_speed))
      ∷ (is_positive limits.safety_factor && not (A.lt (A.lit 1 0) limits.safety_factor))
      ∷ is_positive limits.gravity
      ∷ if_finite limits.max_normal_acceleration (is_positive limits.max_normal_acceleration)
      ∷ if_finite limits.max_specific_thrust (A.lt limits.gravity limits.max_specific_thrust)
      ∷ if_finite limits.max_tilt_rad (
          is_positive limits.max_tilt_rad
          && not (A.le (A.over A.pi (A.lit 2 0)) limits.max_tilt_rad))
      ∷ if_finite limits.max_heading_rate_rad_s (is_positive limits.max_heading_rate_rad_s)
      ∷ if_finite limits.max_yaw_rate_rad_s (is_positive limits.max_yaw_rate_rad_s)
      ∷ (is_positive limits.max_tangent_change_rad && not (A.le A.pi limits.max_tangent_change_rad))
      ∷ leb 1000 limits.feasibility_samples
      ∷ (is_positive limits.integration_arc_step
          && is_positive limits.max_parameter_step
          && is_positive limits.min_parameter_speed)
      ∷ []

  unfoldable pub validate_limits : FeasibilityLimits A → Result (Unit {0})
  validate_limits limits = require (limit_conditions limits)
