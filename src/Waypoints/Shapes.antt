-- ===== src/Waypoints/Shapes.antt =====
-- The curves by their axes, their tests and periods, of GzDRL/include/common/waypoint_generator.hh.
-- `fuel` bounds the rounds of the loop of `gcd_double`.
use gz_drl.Base.{ℕ, zero, suc, ◌&&◌, Option, none, some, [], ◌∷◌, if◌then◌else◌, Result, ◌>>=◌}
use gz_drl.Waypoints.{Arithmetic, max_of}
use gz_drl.Waypoints.Curves.{CurveState, FeasibilityLimits, vec3}
use gz_drl.Waypoints.Limits.{
  require, is_positive, validate_frequency, validate_spacing, validate_limits,
}

-- What an axis swings by: `amplitude * sin(frequency * u + delta)`.
pub record Axis (A : Arithmetic) : Type 0 where
  pub amplitude : A.Real
  pub frequency : A.Real
  pub delta : A.Real

module _ (A : Arithmetic) where
  -- The loop of `gcd_double`.
  unfoldable pub gcd_loop : ℕ → A.Real → A.Real → Option A.Real
  gcd_loop zero a b = none
  gcd_loop (suc fuel) a b =
      let remainder = A.fmod a b in
      let remainder' =
        if A.lt (A.abs (A.minus b remainder)) (A.lit 1 7) then A.lit 0 0 else remainder in
      let rest = gcd_loop fuel b remainder' in if A.lt (A.lit 1 7) b then rest else some a

  unfoldable pub gcd_double : ℕ → A.Real → A.Real → Option A.Real
  unfolding gcd_loop
  gcd_double fuel a b = gcd_loop fuel (A.abs a) (A.abs b)

  abbrev pub period_of : A.Real → A.Real
  period_of common_freq =
      if A.lt common_freq (A.lit 1 7)
      then A.lit 0 0
      else A.over (A.times (A.lit 2 0) A.pi) common_freq

  unfoldable pub calculate_period : ℕ → A.Real → A.Real → Option A.Real
  unfolding gcd_double
  calculate_period fuel freq_a freq_b = elim (gcd_double fuel freq_a freq_b) [
    | none ↦ none
    | some common_freq ↦ some (period_of common_freq)
  ]

  -- The overload with three frequencies.
  unfoldable pub calculate_period_of_three : ℕ → A.Real → A.Real → A.Real → Option A.Real
  unfolding gcd_double calculate_period
  calculate_period_of_three fuel freq_a freq_b freq_c = elim (gcd_double fuel freq_b freq_c) [
    | none ↦ none
    | some common_freq ↦ calculate_period fuel freq_a common_freq
  ]

  -- An axis with its first two derivatives.
  abbrev pub wave : Axis A → A.Real → A.Real × A.Real × A.Real
  wave axis u =
      let angle = A.plus (A.times axis.frequency u) axis.delta in
      (
        A.times axis.amplitude (A.sin angle),
        A.times (A.times_float axis.amplitude axis.frequency) (A.cos angle),
        A.times
            (A.times_float (A.times_float (A.negative axis.amplitude) axis.frequency)
              axis.frequency)
            (A.sin angle),
      )

  abbrev pub raised : A.Real → A.Real × A.Real × A.Real → A.Real × A.Real × A.Real
  raised offset (p, dp, ddp) = (A.plus offset p, dp, ddp)

  -- An axis along which nothing moves.
  abbrev pub still : A.Real → A.Real × A.Real × A.Real
  still offset = (offset, A.lit 0 0, A.lit 0 0)

  abbrev pub state_of :
      A.Real × A.Real × A.Real → A.Real × A.Real × A.Real → A.Real × A.Real × A.Real → CurveState A
  state_of (x, dx, ddx) (y, dy, ddy) (z, dz, ddz) = record {
    position = vec3 A x y z;
    first_derivative = vec3 A dx dy dz;
    second_derivative = vec3 A ddx ddy ddz;
  }

  abbrev pub lissajous_2d : Axis A → Axis A → A.Real → A.Real → CurveState A
  lissajous_2d x y z u = state_of (wave x u) (wave y u) (still z)

  abbrev pub lissajous_yz : Axis A → Axis A → A.Real → A.Real → A.Real → CurveState A
  lissajous_yz y z x_offset z_offset u =
      state_of (still x_offset) (wave y u) (raised z_offset (wave z u))

  abbrev pub lissajous_3d : Axis A → Axis A → Axis A → A.Real → A.Real → CurveState A
  lissajous_3d x y z z_offset u = state_of (wave x u) (wave y u) (raised z_offset (wave z u))

  abbrev pub circle : A.Real → A.Real → A.Real → A.Real → A.Real → CurveState A
  circle radius center_x center_y z theta =
      let back = A.negative radius in
      state_of
        (
          A.plus center_x (A.times radius (A.cos theta)),
          A.times back (A.sin theta),
          A.times back (A.cos theta),
        )
        (
          A.plus center_y (A.times radius (A.sin theta)),
          A.times radius (A.cos theta),
          A.times back (A.sin theta),
        )
        (still z)

  -- The greatest of the frequencies of two or three axes.
  abbrev pub greatest_of_two : Axis A → Axis A → A.Real
  greatest_of_two a b = max_of A a.frequency b.frequency

  abbrev pub greatest_of_three : Axis A → Axis A → Axis A → A.Real
  greatest_of_three a b c = max_of A (greatest_of_two a b) c.frequency

  unfoldable pub period_of_two : ℕ → Axis A → Axis A → Option A.Real
  unfolding calculate_period
  period_of_two fuel a b = calculate_period fuel a.frequency b.frequency

  unfoldable pub period_of_three : ℕ → Axis A → Axis A → Axis A → Option A.Real
  unfolding calculate_period_of_three
  period_of_three fuel a b c = calculate_period_of_three fuel a.frequency b.frequency c.frequency

  -- The tests of two or three axes.
  unfoldable pub validate_two : Axis A → Axis A → Result (Unit {0})
  unfolding validate_frequency
  validate_two a b =
      require ((is_positive A a.amplitude && is_positive A b.amplitude) ∷ []) >>= λ _.
      validate_frequency A a.frequency >>= λ _. validate_frequency A b.frequency

  unfoldable pub validate_three : Axis A → Axis A → Axis A → Result (Unit {0})
  unfolding validate_frequency
  validate_three a b c =
      require
        ((is_positive A a.amplitude && is_positive A b.amplitude && is_positive A c.amplitude) ∷ [])
      >>= λ _. validate_frequency A a.frequency >>= λ _.
          validate_frequency A b.frequency >>= λ _. validate_frequency A c.frequency

  -- The spacing of the waypoints, and the limits.
  abbrev pub validate_request : A.Real → A.Real → FeasibilityLimits A → Result (Unit {0})
  validate_request min_dist max_dist limits =
      validate_spacing A min_dist max_dist >>= λ _. validate_limits A limits
