-- ===== src/Waypoints/Curves.antt =====
-- The curves, and what flying along them at the greatest speed asks of a vehicle, of
-- GzDRL/include/common/waypoint_generator.hh.
use gz_drl.Base.{
  ℕ, Bool, not, ◌&&◌, ◌||◌, List, [], ◌∷◌, if◌then◌else◌, runtime_error, Result, ok, throws, ◌>>=◌,
}
use gz_drl.Waypoints.{Arithmetic, epsilon}

pub record Vec3 (A : Arithmetic) : Type 0 where
  pub x : A.Real
  pub y : A.Real
  pub z : A.Real

pub record CurveState (A : Arithmetic) : Type 0 where
  pub position : Vec3 A
  pub first_derivative : Vec3 A
  pub second_derivative : Vec3 A

pub record FeasibilityLimits (A : Arithmetic) : Type 0 where
  pub min_speed : A.Real
  pub max_speed : A.Real
  pub max_normal_acceleration : A.Real
  pub gravity : A.Real
  pub max_specific_thrust : A.Real
  pub max_tilt_rad : A.Real
  pub safety_factor : A.Real
  pub max_tangent_change_rad : A.Real
  pub feasibility_samples : ℕ
  pub integration_arc_step : A.Real
  pub max_parameter_step : A.Real
  pub min_parameter_speed : A.Real
  pub max_heading_rate_rad_s : A.Real
  pub max_yaw_rate_rad_s : A.Real

pub record FeasibilityMetrics (A : Arithmetic) : Type 0 where
  pub curvature : A.Real
  pub normal_acceleration : A.Real
  pub specific_thrust : A.Real
  pub tilt_rad : A.Real
  pub heading_rate_rad_s : A.Real
  pub yaw_rate_rad_s : A.Real

module _ (A : Arithmetic) where
  abbrev pub vec3 : A.Real → A.Real → A.Real → Vec3 A
  vec3 x y z = record { x = x; y = y; z = z }

  abbrev pub add : Vec3 A → Vec3 A → Vec3 A
  add a b = vec3 (A.plus a.x b.x) (A.plus a.y b.y) (A.plus a.z b.z)

  abbrev pub subtract : Vec3 A → Vec3 A → Vec3 A
  subtract a b = vec3 (A.minus a.x b.x) (A.minus a.y b.y) (A.minus a.z b.z)

  abbrev pub scale : Vec3 A → A.Real → Vec3 A
  scale a s = vec3 (A.times a.x s) (A.times a.y s) (A.times a.z s)

  abbrev pub divide : Vec3 A → A.Real → Vec3 A
  divide a s = vec3 (A.over a.x s) (A.over a.y s) (A.over a.z s)

  abbrev pub dot : Vec3 A → Vec3 A → A.Real
  dot a b = A.plus (A.plus (A.times a.x b.x) (A.times a.y b.y)) (A.times a.z b.z)

  abbrev pub norm : Vec3 A → A.Real
  norm a = A.sqrt (dot a a)

  abbrev pub xy_norm : Vec3 A → A.Real
  xy_norm a = A.sqrt (A.plus (A.times a.x a.x) (A.times a.y a.y))

  abbrev pub default_limits : FeasibilityLimits A
  default_limits = record {
    min_speed = A.lit 1 0;
    max_speed = A.lit 15 1;
    max_normal_acceleration = A.lit 2 0;
    gravity = A.lit 981 2;
    max_specific_thrust = A.times (A.lit 2 0) (A.lit 981 2);
    max_tilt_rad = A.over (A.times (A.lit 35 0) A.pi) (A.lit 180 0);
    safety_factor = A.lit 90 2;
    max_tangent_change_rad = A.over (A.times (A.lit 10 0) A.pi) (A.lit 180 0);
    feasibility_samples = 20000;
    integration_arc_step = A.lit 5 3;
    max_parameter_step = A.lit 1 3;
    min_parameter_speed = A.lit 1 6;
    max_heading_rate_rad_s = A.infinity;
    max_yaw_rate_rad_s = A.infinity;
  }

  unfoldable pub curvature_vector : CurveState A → A.Real → Result (Vec3 A)
  curvature_vector state min_parameter_speed =
      let q2 = dot state.first_derivative state.first_derivative in
      let q_min2 = A.times min_parameter_speed min_parameter_speed in
      if A.le q2 q_min2
      then throws runtime_error
      else ok (
          subtract (divide state.second_derivative q2) (
            scale state.first_derivative
              (A.over (dot state.first_derivative state.second_derivative) (A.times q2 q2))))

  abbrev pub tilt : Vec3 A → A.Real → A.Real
  tilt specific_thrust_vector specific_thrust =
      if A.le specific_thrust (epsilon A) || A.le specific_thrust_vector.z (A.lit 0 0)
      then A.infinity
      else A.atan2 (xy_norm specific_thrust_vector) specific_thrust_vector.z

  abbrev pub yaw_rate : CurveState A → FeasibilityLimits A → A.Real
  yaw_rate state limits =
      let d = state.first_derivative in
      let dd = state.second_derivative in
      let xy_speed2 = A.plus (A.times d.x d.x) (A.times d.y d.y) in
      let parameter_speed = norm d in
      if A.lt (A.times limits.min_parameter_speed limits.min_parameter_speed) xy_speed2
        && A.lt limits.min_parameter_speed parameter_speed
      then A.abs (
          A.times (A.over (A.minus (A.times d.x dd.y) (A.times d.y dd.x)) xy_speed2)
            (A.over limits.max_speed parameter_speed))
      else A.lit 0 0

  -- Behind the computation of the curvature, which may throw.
  abbrev pub metrics_of : CurveState A → FeasibilityLimits A → Vec3 A → FeasibilityMetrics A
  metrics_of state limits curvature_vector =
      let curvature = norm curvature_vector in
      let desired_acceleration =
        scale curvature_vector (A.times limits.max_speed limits.max_speed) in
      let specific_thrust_vector =
        add desired_acceleration (vec3 (A.lit 0 0) (A.lit 0 0) limits.gravity) in
      let specific_thrust = norm specific_thrust_vector in
      record {
        curvature = curvature;
        normal_acceleration = norm desired_acceleration;
        specific_thrust = specific_thrust;
        tilt_rad = tilt specific_thrust_vector specific_thrust;
        heading_rate_rad_s = A.times limits.max_speed curvature;
        yaw_rate_rad_s = yaw_rate state limits;
      }

  unfoldable pub compute_metrics :
      CurveState A → FeasibilityLimits A → Result (FeasibilityMetrics A)
  unfolding curvature_vector
  compute_metrics state limits =
      curvature_vector state limits.min_parameter_speed >>= λ c. ok (metrics_of state limits c)

  -- A value within its usable limit; a limit that is not finite is none.
  abbrev pub within : A.Real → A.Real → A.Real → Bool
  within value factor limit = not (A.is_finite limit && A.lt (A.times factor limit) value)

  unfoldable pub metrics_are_feasible : FeasibilityMetrics A → FeasibilityLimits A → Bool
  metrics_are_feasible metrics limits =
      let factor = limits.safety_factor in
      within metrics.normal_acceleration factor limits.max_normal_acceleration
      && within metrics.specific_thrust factor limits.max_specific_thrust
      && within metrics.tilt_rad factor limits.max_tilt_rad
      && within metrics.heading_rate_rad_s factor limits.max_heading_rate_rad_s
      && within metrics.yaw_rate_rad_s factor limits.max_yaw_rate_rad_s

  unfoldable pub throw_if_infeasible : CurveState A → FeasibilityLimits A → Result (Unit {0})
  unfolding compute_metrics metrics_are_feasible
  throw_if_infeasible state limits = compute_metrics state limits >>= λ metrics.
      if metrics_are_feasible metrics limits then ok tt else throws runtime_error

  -- The position and the normalized tangent.
  unfoldable pub make_point : CurveState A → Result (List A.Real)
  make_point state =
      let tangent_norm = norm state.first_derivative in
      let tangent = divide state.first_derivative tangent_norm in
      if not (A.is_finite tangent_norm) || A.le tangent_norm (epsilon A)
      then throws runtime_error
      else ok (
          A.to_float state.position.x
          ∷ A.to_float state.position.y
          ∷ A.to_float state.position.z
          ∷ A.to_float tangent.x
          ∷ A.to_float tangent.y
          ∷ A.to_float tangent.z
          ∷ [])
