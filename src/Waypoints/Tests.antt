-- ===== src/Waypoints/Tests.antt =====
-- Runs of the generators and the sampler, and their theorems at concrete inputs.
use gz_drl.Base.{
  ℕ, ◌+◌, ◌-◌, ◌*◌, ◌/◌, ◌%◌, ◌^◌, ◌≡◌, refl, ltb, leb, ◌&&◌, min, Option, none, some, List, [],
  arith, length, invalid_argument, Result, ok, throws,
}
use gz_drl.Waypoints.{Arithmetic}
use gz_drl.Waypoints.Curves.{FeasibilityLimits, default_limits}
use gz_drl.Waypoints.Loops.{Engine, bound_of}
use gz_drl.Waypoints.Generators.{
  Request, on_circle, in_xy, generate, generate_circle_waypoints, generate_lissajous_2d,
}
use gz_drl.Waypoints.Numbers.{Finite, Fine, Returns}
use gz_drl.Waypoints.Requests.{generate-Returns}
use gz_drl.Waypoints.Safety.{StartsAtZero, Follows, generate-Follows}
use gz_drl.Waypoints.Sampler.{xy_circle, Config, Sample, axis_with, generate_of_type}
use gz_drl.Waypoints.Sampler.Samples.{Keeps, generate_of_type-Keeps, generate_of_type-Returns}

-- Thousandths, of which those above 1000 do not compare; a curve goes straight on, and a quotient is
-- its dividend.
abbrev thousandths : Arithmetic
thousandths = record {
  Real = ℕ;
  lit = λ n k. n * 1000 / 10 ^ k;
  pi = 3141;
  infinity = 2000000;
  of_nat = λ n. n * 1000;
  plus = λ a b. a + b;
  minus = λ a b. a - b;
  times = λ a b. a * b / 1000;
  over = λ a b. a;
  negative = λ a. 0;
  abs = λ a. a;
  round = λ a. a;
  sqrt = λ a. a;
  sin = λ a. 0;
  cos = λ a. 1000;
  atan2 = λ a b. 0;
  fmod = λ a b. a % b;
  lt = λ a b. ltb a b && leb b 1000000;
  le = λ a b. leb a b;
  is_finite = λ a. leb a 1000000;
  ceil = λ a. a / 1000;
  to_float = λ a. a;
  plus_float = λ a b. a + b;
  times_float = λ a b. a * b / 1000;
  over_float = λ a b. a;
}

-- Every draw gives its lower bound; the engine counts them.
abbrev counter : Engine thousandths
counter = record { Rng = ℕ; uniform = λ lo hi rng. (lo, rng + 1) }

thousandths-Finite : Finite thousandths
thousandths-Finite = record {
  top = 1000000;
  rank = λ a. min a 1000000;
  rank_le = λ a. omega arith;
  rank_lt = λ a b h. ground (arith, h);
  fmod_lt = λ a b h k. ground (arith, h, k);
  zero_small = refl;
  zero_from = refl;
  above_from = λ a b from h. ground (arith, from, h);
}

thousandths-Fine : (bound : ℕ) → Fine thousandths bound
thousandths-Fine bound = record {
  moves = λ p du from far inside inside'. ground (arith, far, inside, inside');
  ahead = λ u v from inside inside' far. ground (arith, far, inside, inside');
}

thousandths-StartsAtZero : StartsAtZero thousandths
thousandths-StartsAtZero period n positive = omega arith

abbrev some_limits : FeasibilityLimits thousandths
some_limits = record (default_limits thousandths) {
  max_specific_thrust = 2000000;
  max_tilt_rad = 610;
  max_tangent_change_rad = 174;
  min_parameter_speed = 1;
  feasibility_samples = 1000;
  integration_arc_step = 500;
  max_parameter_step = 1000;
}

abbrev some_circle : Request thousandths
some_circle = on_circle 1500 0 0

-- What a run gives, where it returns.
abbrev run_of : {B : Type 0} → B → Option B → B
run_of b none = b
run_of b (some r) = r

abbrev value_of : {B : Type 0} → B → Result B → B
value_of b (throws e) = b
value_of b (ok r) = r

generate-Returns_example :
    Returns (generate thousandths counter 1000001 some_circle 650 650 800 some_limits 0)
unfolding thousandths-Finite
generate-Returns_example =
    generate-Returns thousandths counter thousandths-Finite 1000000 some_circle 650 650 800
      some_limits 0 (omega arith) (λ period e. thousandths-Fine (bound_of thousandths period))

abbrev circle_run : Result (List (List ℕ)) × ℕ
circle_run =
    run_of (throws invalid_argument, 0)
      (generate thousandths counter 100 some_circle 650 650 800 some_limits 0)

-- Twenty-five waypoints, an angle of 261 apart.
circle_waypoints : length (value_of [] circle_run.0) ≡ 25
unfolding generate generate_circle_waypoints
circle_waypoints = refl

abbrev some_curve : Request thousandths
some_curve = in_xy (axis_with thousandths 1500 1 0) (axis_with thousandths 1500 1 1570)

abbrev curve_run : Result (List (List ℕ)) × ℕ
curve_run =
    run_of (throws invalid_argument, 0)
      (generate thousandths counter 100 some_curve 650 650 800 some_limits 0)

curve_returns :
    generate thousandths counter 100 some_curve 650 650 800 some_limits 0
    ≡ some (ok (value_of [] curve_run.0), curve_run.1)
unfolding generate generate_lissajous_2d
curve_returns = refl

generate-Follows_example :
    Follows thousandths counter 100 some_curve 650 650 800 some_limits 0 (value_of [] curve_run.0)
generate-Follows_example =
    generate-Follows thousandths counter thousandths-StartsAtZero 100 some_curve 650 650 800
      some_limits 0 curve_run.1 (value_of [] curve_run.0) curve_returns

abbrev some_config : Config thousandths
some_config = record {
  nominal_height = 800;
  vertical_amplitude_min = 300;
  vertical_amplitude_max = 400;
  min_waypoint_distance = 650;
  max_waypoint_distance = 650;
  max_parameter_attempts = 64;
  yz_checked_speed = 1000;
  yz_max_normal_acceleration = 4500;
}

abbrev sample_run : Result (Sample thousandths) × ℕ × ℕ
sample_run =
    run_of (throws invalid_argument, 0, 0)
      (generate_of_type thousandths counter 100 xy_circle some_limits some_config 0 0)

abbrev no_sample : Sample thousandths
no_sample = record { waypoints = []; kind = xy_circle; checked_max_speed = 0 }

sample_returns :
    generate_of_type thousandths counter 100 xy_circle some_limits some_config 0 0
    ≡ some (ok (value_of no_sample sample_run.0), sample_run.1, sample_run.2)
unfolding generate_of_type
sample_returns = refl

-- The sampler has drawn four numbers, for the phase, the radius and the center.
sample_draws : sample_run.1 ≡ 4
unfolding generate_of_type
sample_draws = refl

generate_of_type-Keeps_example :
    Keeps thousandths counter 100 xy_circle some_limits some_config
      (value_of no_sample sample_run.0)
generate_of_type-Keeps_example =
    generate_of_type-Keeps thousandths counter 100 xy_circle some_limits some_config
      thousandths-StartsAtZero 0 0 sample_run.1 sample_run.2 (value_of no_sample sample_run.0)
      sample_returns

generate_of_type-Returns_example :
    Returns (generate_of_type thousandths counter 1000001 xy_circle some_limits some_config 0 0)
unfolding thousandths-Finite
generate_of_type-Returns_example =
    generate_of_type-Returns thousandths counter thousandths-Finite 1000000 (omega arith) xy_circle
      some_limits some_config (λ q period fits e. thousandths-Fine (bound_of thousandths period)) 0
      0
