-- ===== src/Waypoints.antt =====
-- `WaypointGenerator` of GzDRL/include/common/waypoint_generator.hh and
-- `RandomizedTrajectorySampler` of GzDRL/include/common/randomized_trajectory_sampler.hh. The
-- arithmetic of `double` and the random numbers are parameters; a `float` is the `double` it
-- converts to. What an exception says is left out.
pub mod Curves
pub mod Limits
pub mod Loops
pub mod Shapes
pub mod Generators
pub mod Numbers
pub mod Ends
pub mod Periods
pub mod Requests
pub mod Follows
pub mod Safety
pub mod Sampler
mod Tests
use gz_drl.Base.{ℕ, Bool, if◌then◌else◌}

-- A comparison with a number that is none is false.
pub record Arithmetic : Type 1 where
  pub Real : Type 0
  -- `lit n k` is `n` times the `k`-th power of a tenth.
  pub lit : ℕ → ℕ → Real
  pub pi : Real
  pub infinity : Real
  pub of_nat : ℕ → Real
  pub plus : Real → Real → Real
  pub minus : Real → Real → Real
  pub times : Real → Real → Real
  pub over : Real → Real → Real
  pub negative : Real → Real
  pub abs : Real → Real
  pub round : Real → Real
  pub sqrt : Real → Real
  pub sin : Real → Real
  pub cos : Real → Real
  pub atan2 : Real → Real → Real
  pub fmod : Real → Real → Real
  pub lt : Real → Real → Bool
  pub le : Real → Real → Bool
  pub is_finite : Real → Bool
  -- `static_cast<int>(std::ceil(x))`, 0 where that is negative.
  pub ceil : Real → ℕ
  -- `static_cast<float>`, and the sum, product and quotient of two `float`s.
  pub to_float : Real → Real
  pub plus_float : Real → Real → Real
  pub times_float : Real → Real → Real
  pub over_float : Real → Real → Real

module _ (A : Arithmetic) where
  abbrev pub epsilon : A.Real
  epsilon = A.lit 1 9

  abbrev pub min_of : A.Real → A.Real → A.Real
  min_of a b = if A.lt b a then b else a

  abbrev pub max_of : A.Real → A.Real → A.Real
  max_of a b = if A.lt a b then b else a
