-- ===== src/Waypoints/Loops.antt =====
-- The loops along a curve of GzDRL/include/common/waypoint_generator.hh, over rounds that may run
-- out: there is no outcome then.
use gz_drl.Base.{
  ℕ, zero, suc, ◌+◌, Bool, true, false, ◌&&◌, ◌||◌, Option, none, some, List, [], ◌∷◌, leb,
  if◌then◌else◌, runtime_error, Result, ok, throws, ◌>>=◌,
}
use gz_drl.Waypoints.{Arithmetic, epsilon, min_of, max_of}
use gz_drl.Waypoints.Curves.{
  CurveState, FeasibilityLimits, norm, curvature_vector, throw_if_infeasible, make_point,
}
use gz_drl.Waypoints.Limits.{require, is_positive}

-- The engine behind random numbers, which `std::uniform_real_distribution` draws from.
pub record Engine (A : Arithmetic) : Type 1 where
  pub Rng : Type 0
  pub uniform : A.Real → A.Real → Rng → A.Real × Rng

-- Where a round of `AdvanceByArcLengthAndTurning` leaves the loop, with its answer and the
-- parameter, or goes on with the parameter, the distance and the turn.
pub data Advance (R : Type 0) : Type 0 where
  stops : Bool → R → Advance R
  goes : R → R → R → Advance R

-- What the call before gave, and the points behind.
abbrev pub prepend :
    {P S : Type 0} → P → Option (Result (List P) × S) → Option (Result (List P) × S)
prepend p none = none
prepend p (some (throws e, s)) = some (throws e, s)
prepend p (some (ok ps, s)) = some (ok (p ∷ ps), s)

abbrev pub then_points :
    {P S : Type 0} → Result P → S → Option (Result (List P) × S) → Option (Result (List P) × S)
then_points (throws e) s rest = some (throws e, s)
then_points (ok p) s rest = prepend p rest

module _ (A : Arithmetic) where
  abbrev pub bound_of : A.Real → A.Real
  bound_of period = A.minus period (epsilon A)

  -- `rounds` samples from the one with the number `i` on.
  unfoldable pub validate_samples :
      (A.Real → CurveState A) → A.Real → FeasibilityLimits A → ℕ → ℕ → ℕ → Result (Unit {0})
  unfolding throw_if_infeasible
  validate_samples evaluate period limits samples zero i = ok tt
  validate_samples evaluate period limits samples (suc rounds) i =
      throw_if_infeasible A (evaluate (A.over (A.times period (A.of_nat i)) (A.of_nat samples)))
        limits
      >>= λ _. validate_samples evaluate period limits samples rounds (i + 1)

  abbrev pub samples_of : A.Real → A.Real → FeasibilityLimits A → ℕ
  samples_of period max_frequency limits =
      let scaled = A.ceil (
        A.over (A.times (A.times (A.lit 2048 0) period) max_frequency)
          (A.times (A.lit 2 0) A.pi)) in
      if leb scaled limits.feasibility_samples then limits.feasibility_samples else scaled

  unfoldable pub validate_curve :
      (A.Real → CurveState A) → A.Real → A.Real → FeasibilityLimits A → Result (Unit {0})
  unfolding validate_samples
  validate_curve evaluate period max_frequency limits =
      let samples = samples_of period max_frequency limits in
      require ((is_positive A period && A.is_finite period) ∷ []) >>= λ _.
      validate_samples evaluate period limits samples samples 0

  -- The part of a step that stays below a limit, of what is already used of it.
  abbrev pub fraction_of : A.Real → A.Real → A.Real → A.Real → A.Real
  fraction_of fraction used more limit =
      if A.lt limit (A.plus used more)
      then min_of A fraction (A.over (A.minus limit used) (max_of A more (epsilon A)))
      else fraction

  -- A round behind the curvatures at both ends of its step.
  unfoldable pub advance_by :
      FeasibilityLimits A
      → A.Real
      → A.Real
      → A.Real
      → A.Real
      → A.Real
      → A.Real
      → A.Real
      → Advance A.Real
  advance_by limits requested parameter distance turn du ds dturn =
      let fraction =
        fraction_of (fraction_of (A.lit 1 0) distance ds requested) turn dturn
          limits.max_tangent_change_rad in
      let parameter' = A.plus parameter du in
      let distance' = A.plus distance ds in
      let turn' = A.plus turn dturn in
      if A.lt fraction (A.lit 1 0)
      then stops true (A.plus parameter (A.times (max_of A fraction (A.lit 1 6)) du))
      else if A.le (A.minus requested (epsilon A)) distance'
          || A.le (A.minus limits.max_tangent_change_rad (epsilon A)) turn'
      then stops true parameter'
      else goes parameter' distance' turn'

  unfoldable pub advance_round :
      (A.Real → CurveState A)
      → A.Real
      → A.Real
      → FeasibilityLimits A
      → A.Real
      → A.Real
      → A.Real
      → Result (Advance A.Real)
  unfolding advance_by curvature_vector
  advance_round evaluate period requested limits parameter distance turn =
      let current = evaluate parameter in
      let speed = norm A current.first_derivative in
      let du =
        min_of A (min_of A limits.max_parameter_step (A.over limits.integration_arc_step speed))
          (A.minus period parameter) in
      let next = evaluate (A.plus parameter du) in
      let next_speed = norm A next.first_derivative in
      let ds = A.times (A.times (A.lit 5 1) (A.plus speed next_speed)) du in
      if A.le speed limits.min_parameter_speed
      then throws runtime_error
      else if A.le du (epsilon A)
      then ok (stops false parameter)
      else if A.le next_speed limits.min_parameter_speed
      then throws runtime_error
      else (curvature_vector A current limits.min_parameter_speed >>= λ kappa.
          curvature_vector A next limits.min_parameter_speed >>= λ kappa_next.
          let dturn =
            A.times (A.times (A.lit 5 1) (A.plus (norm A kappa) (norm A kappa_next))) ds in
          ok (advance_by limits requested parameter distance turn du ds dturn))

  -- What comes behind a round.
  abbrev pub then_advance :
      Result (Advance A.Real)
      → (A.Real → A.Real → A.Real → Option (Result (Bool × A.Real)))
      → Option (Result (Bool × A.Real))
  then_advance (throws e) next = some (throws e)
  then_advance (ok (stops more parameter)) next = some (ok (more, parameter))
  then_advance (ok (goes parameter distance turn)) next = next parameter distance turn

  unfoldable pub advance :
      (A.Real → CurveState A)
      → A.Real
      → A.Real
      → FeasibilityLimits A
      → ℕ
      → A.Real
      → A.Real
      → A.Real
      → Option (Result (Bool × A.Real))
  unfolding advance_round
  advance evaluate period requested limits zero parameter distance turn = none
  advance evaluate period requested limits (suc rounds) parameter distance turn =
      if A.lt parameter (bound_of period)
      then then_advance (advance_round evaluate period requested limits parameter distance turn)
          (λ p d t. advance evaluate period requested limits rounds p d t)
      else some (ok (false, parameter))

module _ (A : Arithmetic) (E : Engine A) where
  -- A round of the loop of a generator, behind the advance from `u`.
  unfoldable pub then_waypoint :
      (A.Real → CurveState A)
      → A.Real
      → FeasibilityLimits A
      → A.Real
      → E.Rng
      → Option (Result (Bool × A.Real))
      → (A.Real → Option (Result (List (List A.Real)) × E.Rng))
      → Option (Result (List (List A.Real)) × E.Rng)
  unfolding throw_if_infeasible make_point
  then_waypoint evaluate period limits u rng none next = none
  then_waypoint evaluate period limits u rng (some (throws e)) next = some (throws e, rng)
  then_waypoint evaluate period limits u rng (some (ok (false, u'))) next = some (ok [], rng)
  then_waypoint evaluate period limits u rng (some (ok (true, u'))) next =
      if A.le (bound_of A period) u'
      then some (ok [], rng)
      else if A.le u' (A.plus u (epsilon A))
      then some (throws runtime_error, rng)
      else then_points
          (throw_if_infeasible A (evaluate u') limits >>= λ _. make_point A (evaluate u')) rng
          (next u')

  unfoldable pub waypoint_loop :
      (A.Real → CurveState A)
      → A.Real
      → A.Real
      → A.Real
      → FeasibilityLimits A
      → ℕ
      → ℕ
      → A.Real
      → E.Rng
      → Option (Result (List (List A.Real)) × E.Rng)
  unfolding advance then_waypoint
  waypoint_loop evaluate period min_dist max_dist limits steps zero u rng = none
  waypoint_loop evaluate period min_dist max_dist limits steps (suc rounds) u rng =
      let drawn = E.uniform min_dist max_dist rng in
      let advanced = advance A evaluate period drawn.0 limits steps u (A.lit 0 0) (A.lit 0 0) in
      if A.lt u (bound_of A period)
      then then_waypoint evaluate period limits u drawn.1 advanced
          (λ u'. waypoint_loop evaluate period min_dist max_dist limits steps rounds u' drawn.1)
      else some (ok [], rng)

  -- The loop of the circle.
  unfoldable pub circle_loop :
      (A.Real → CurveState A)
      → A.Real
      → A.Real
      → A.Real
      → A.Real
      → ℕ
      → A.Real
      → E.Rng
      → Option (Result (List (List A.Real)) × E.Rng)
  unfolding make_point
  circle_loop evaluate radius min_dist max_dist cap zero theta rng = none
  circle_loop evaluate radius min_dist max_dist cap (suc rounds) theta rng =
      let drawn = E.uniform min_dist max_dist rng in
      let delta_theta = A.over (min_of A drawn.0 cap) radius in
      let rest = λ (theta' : A.Real).
        circle_loop evaluate radius min_dist max_dist cap rounds theta' drawn.1 in
      if A.lt theta (bound_of A (A.times (A.lit 2 0) A.pi))
      then then_points (make_point A (evaluate theta)) rng (
          if A.le delta_theta (epsilon A)
          then some (throws runtime_error, drawn.1)
          else rest (A.plus theta delta_theta))
      else some (ok [], rng)
