-- ===== src/Waypoints/Sampler.antt =====
-- `RandomizedTrajectorySampler` of GzDRL/include/common/randomized_trajectory_sampler.hh, over a
-- generator of waypoints. Both have an engine. What describes a sample in words is left out.
pub mod Samples
use gz_drl.Base.{
  ℕ, zero, suc, Bool, true, false, not, ◌&&◌, Option, none, some, List, [], ◌∷◌, ltb, leb,
  if◌then◌else◌, length, Error, runtime_error, Result, ok, throws,
}
use gz_drl.Waypoints.{Arithmetic, min_of, max_of}
use gz_drl.Waypoints.Curves.{FeasibilityLimits}
use gz_drl.Waypoints.Limits.{require, is_positive}
use gz_drl.Waypoints.Loops.{Engine}
use gz_drl.Waypoints.Shapes.{Axis}
use gz_drl.Waypoints.Generators.{Request, on_circle, in_xy, in_yz, in_space, generate}

pub data TrajectoryType : Type 0 where
  xy_lissajous yz_lissajous lissajous_in_space xy_circle : TrajectoryType

pub record Config (A : Arithmetic) : Type 0 where
  pub nominal_height : A.Real
  pub vertical_amplitude_min : A.Real
  pub vertical_amplitude_max : A.Real
  pub min_waypoint_distance : A.Real
  pub max_waypoint_distance : A.Real
  pub max_parameter_attempts : ℕ
  pub yz_checked_speed : A.Real
  pub yz_max_normal_acceleration : A.Real

pub record Sample (A : Arithmetic) : Type 0 where
  pub waypoints : List (List A.Real)
  pub kind : TrajectoryType
  pub checked_max_speed : A.Real

module _ (A : Arithmetic) where
  unfoldable pub validate_config : Config A → Result (Unit {0})
  validate_config config = require (
      is_positive A config.nominal_height
      ∷ (is_positive A config.vertical_amplitude_min
          && not (A.lt config.vertical_amplitude_max config.vertical_amplitude_min))
      ∷ not (
          A.lt (A.plus_float config.nominal_height (A.negative config.vertical_amplitude_max))
            (A.lit 0 0))
      ∷ (is_positive A config.min_waypoint_distance
          && not (A.lt config.max_waypoint_distance config.min_waypoint_distance))
      ∷ ltb 0 config.max_parameter_attempts
      ∷ (is_positive A config.yz_checked_speed && is_positive A config.yz_max_normal_acceleration)
      ∷ [])

  -- A literal of type `float`, and an angle in degrees.
  abbrev pub flit : ℕ → ℕ → A.Real
  flit n k = A.to_float (A.lit n k)

  abbrev pub degrees : ℕ → A.Real
  degrees n = A.to_float (A.over (A.times (A.lit n 0) A.pi) (A.lit 180 0))

  abbrev pub two_pi : A.Real
  two_pi = A.to_float (A.times (A.lit 2 0) A.pi)

  abbrev pub root : A.Real → A.Real
  root x = A.to_float (A.sqrt x)

  abbrev pub axis_with : A.Real → ℕ → A.Real → Axis A
  axis_with amplitude frequency delta = record {
    amplitude = amplitude;
    frequency = flit frequency 0;
    delta = delta;
  }

  unfoldable pub yz_limits : FeasibilityLimits A → Config A → FeasibilityLimits A
  yz_limits base_limits config = record base_limits {
    min_speed = min_of A base_limits.min_speed config.yz_checked_speed;
    max_speed = config.yz_checked_speed;
    max_normal_acceleration =
        max_of A base_limits.max_normal_acceleration config.yz_max_normal_acceleration;
  }

  -- The limits that a trajectory of the type is checked against.
  unfoldable pub limits_of : TrajectoryType → FeasibilityLimits A → Config A → FeasibilityLimits A
  unfolding yz_limits
  limits_of yz_lissajous base_limits config = yz_limits base_limits config
  limits_of xy_lissajous base_limits config = base_limits
  limits_of lissajous_in_space base_limits config = base_limits
  limits_of xy_circle base_limits config = base_limits

  -- What `GenerateFallback` asks the generator for.
  unfoldable pub fallback : TrajectoryType → Request A
  fallback xy_lissajous =
      in_xy (axis_with (flit 15 1) 1 (flit 0 0))
        (axis_with (flit 15 1) 1 (A.to_float (A.over A.pi (A.lit 2 0))))
  fallback yz_lissajous =
      in_yz (axis_with (flit 163 2) 1 (flit 0 0)) (axis_with (flit 4 1) 2 (flit 0 0)) (flit 0 0)
  fallback lissajous_in_space =
      in_space (axis_with (flit 175 2) 1 (flit 0 0))
        (axis_with (flit 175 2) 1 (A.to_float (A.over A.pi (A.lit 2 0))))
        (axis_with (flit 35 2) 2 (flit 0 0))
  fallback xy_circle = on_circle (flit 15 1) (flit 0 0) (flit 0 0)

module _ (A : Arithmetic) (E : Engine A) where
  -- What `GenerateCandidate` asks the generator for, behind its drawing of `phase`.
  unfoldable pub candidate_at : TrajectoryType → Config A → A.Real → E.Rng → Request A × E.Rng
  candidate_at xy_lissajous config phase rng =
      let (mean_amplitude, rng1) = E.uniform (flit A 135 2) (flit A 165 2) rng in
      let (aspect, rng2) = E.uniform (flit A 94 2) (flit A 106 2) rng1 in
      let (difference, rng3) = E.uniform (degrees A 70) (degrees A 110) rng2 in
      (
        in_xy (axis_with A (A.times_float mean_amplitude (root A aspect)) 1 phase) (
            axis_with A (A.over_float mean_amplitude (root A aspect)) 1
              (A.plus_float phase difference)),
        rng3,
      )
  candidate_at yz_lissajous config phase rng =
      let (vertical, rng1) =
        E.uniform config.vertical_amplitude_min config.vertical_amplitude_max rng in
      let (factor, rng2) = E.uniform (flit A 97 2) (flit A 103 2) rng1 in
      let (x_offset, rng3) = E.uniform (A.negative (flit A 15 2)) (flit A 15 2) rng2 in
      (
        in_yz (axis_with A (A.times_float (A.times_float (flit A 407 2) vertical) factor) 1 phase)
            (axis_with A vertical 2 (A.times_float (flit A 2 0) phase)) x_offset,
        rng3,
      )
  candidate_at lissajous_in_space config phase rng =
      let (mean_amplitude, rng1) = E.uniform (flit A 168 2) (flit A 178 2) rng in
      let (aspect, rng2) = E.uniform (flit A 96 2) (flit A 104 2) rng1 in
      let (vertical, rng3) =
        E.uniform config.vertical_amplitude_min config.vertical_amplitude_max rng2 in
      let (difference, rng4) = E.uniform (degrees A 82) (degrees A 98) rng3 in
      let (z_phase, rng5) = E.uniform (flit A 0 0) (two_pi A) rng4 in
      (
        in_space (axis_with A (A.times_float mean_amplitude (root A aspect)) 1 phase)
            (axis_with A (A.over_float mean_amplitude (root A aspect)) 1
              (A.plus_float phase difference))
            (axis_with A vertical 2 z_phase),
        rng5,
      )
  candidate_at xy_circle config phase rng =
      let (radius, rng1) = E.uniform (flit A 130 2) (flit A 175 2) rng in
      let limit = max_of A (flit A 0 0) (A.plus_float (flit A 190 2) (A.negative radius)) in
      let (center_x, rng2) = E.uniform (A.negative limit) limit rng1 in
      let (center_y, rng3) = E.uniform (A.negative limit) limit rng2 in
      (on_circle radius center_x center_y, rng3)

  unfoldable pub candidate : TrajectoryType → Config A → E.Rng → Request A × E.Rng
  unfolding candidate_at
  candidate kind config rng =
      let (phase, rng1) = E.uniform (flit A 0 0) (two_pi A) rng in
      candidate_at kind config phase rng1

  -- A sample, with the engines of the sampler and of the generator behind it.
  abbrev pub Sampled : Type 0
  Sampled = Option (Result (Sample A) × E.Rng × E.Rng)

  module _ (fuel : ℕ) (kind : TrajectoryType) (base_limits : FeasibilityLimits A)
      (config : Config A) where
    abbrev pub make_sample : List (List A.Real) → Sample A
    make_sample points = record {
      waypoints = points;
      kind = kind;
      checked_max_speed = (limits_of A kind base_limits config).max_speed;
    }

    -- The generator on a request of the sampler.
    abbrev pub ask : Request A → E.Rng → Option (Result (List (List A.Real)) × E.Rng)
    ask q gen =
        generate A E fuel q config.min_waypoint_distance config.max_waypoint_distance
          config.nominal_height (limits_of A kind base_limits config) gen

    unfoldable pub then_fallback : Option (Result (List (List A.Real)) × E.Rng) → E.Rng → Sampled
    then_fallback none rng = none
    then_fallback (some (throws e, gen)) rng = some (throws runtime_error, rng, gen)
    then_fallback (some (ok points, gen)) rng = some (ok (make_sample points), rng, gen)

    -- What an attempt leads to: a sample, or what comes behind it.
    unfoldable pub then_attempt :
        Option (Result (List (List A.Real)) × E.Rng) → E.Rng → (E.Rng → Sampled) → Sampled
    then_attempt none rng next = none
    then_attempt (some (throws e, gen)) rng next = next gen
    then_attempt (some (ok points, gen)) rng next =
        if leb 4 (length points) then some (ok (make_sample points), rng, gen) else next gen

    unfoldable pub attempts : ℕ → E.Rng → E.Rng → Sampled
    unfolding then_fallback then_attempt fallback candidate limits_of generate
    attempts zero rng gen = then_fallback (ask (fallback A kind) gen) rng
    attempts (suc n) rng gen =
        let drawn = candidate kind config rng in
        then_attempt (ask drawn.0 gen) drawn.1 (λ gen'. attempts n drawn.1 gen')

    unfoldable pub generate_of_type : E.Rng → E.Rng → Sampled
    unfolding attempts validate_config
    generate_of_type rng gen = elim (validate_config A config) [
      | throws e ↦ some (throws e, rng, gen)
      | ok _ ↦ attempts config.max_parameter_attempts rng gen
    ]

  -- `pick` draws a type.
  unfoldable pub generate_random :
      (E.Rng → TrajectoryType × E.Rng)
      → ℕ
      → FeasibilityLimits A
      → Config A
      → E.Rng
      → E.Rng
      → Sampled
  unfolding generate_of_type
  generate_random pick fuel base_limits config rng gen =
      let (kind, rng1) = pick rng in generate_of_type fuel kind base_limits config rng1 gen
