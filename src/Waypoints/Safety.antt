-- ===== src/Waypoints/Safety.antt =====
-- What a request for waypoints returns.
use gz_drl.Base.{
  ℕ, zero, suc, ◌≤◌, ◌≡◌, refl, sym, subst, Bool, true, false, ◌&&◌, Option, none, some, List, [],
  ◌∷◌, arith, All, Result, ok, throws, ◌>>=◌, >>=-eq-ok,
}
use gz_drl.Waypoints.{Arithmetic}
use gz_drl.Waypoints.Curves.{CurveState, FeasibilityLimits, throw_if_infeasible}
use gz_drl.Waypoints.Limits.{
  require, limit_conditions, is_positive, validate_limits, validate_spacing,
}
use gz_drl.Waypoints.Loops.{Engine, validate_curve, validate_samples, samples_of}
use gz_drl.Waypoints.Shapes.{
  lissajous_2d, lissajous_yz, lissajous_3d, circle, greatest_of_two, greatest_of_three,
  validate_request, validate_two, validate_three,
}
use gz_drl.Waypoints.Generators.{
  Request, on_circle, in_xy, in_yz, in_space, guarded, with_period, waypoints_along, generate,
  generate_circle_waypoints, generate_lissajous_2d, generate_yz_lissajous, generate_lissajous_3d,
  closing,
}
use gz_drl.Waypoints.Follows.{
  Feasible, Along, Around, then_points-ok, throw_if_infeasible-Feasible, waypoint_loop-Ahead,
  circle_loop-Around,
}

require-All : (bs : List Bool) → require bs ≡ ok tt → All (λ b. b ≡ true) bs
require-All [] e = tt
require-All (true ∷ bs) e = (refl, require-All bs e)
require-All (false ∷ bs) e = absurd cc

-- The first sample of a period is at 0.
abbrev pub StartsAtZero : Arithmetic → Type 0
StartsAtZero A =
    (period : A.Real) (n : ℕ)
    → (is_positive A period && A.is_finite period) ≡ true
    → A.over (A.times period (A.of_nat 0)) (A.of_nat (suc n)) ≡ A.lit 0 0

-- What passes its tests.
guarded-ok :
    {B S : Type 0} (t : Result (Unit {0})) (s : S) (o : Option (Result B × S)) {b : B} {s' : S}
    → guarded t s o ≡ some (ok b, s')
    → (t ≡ ok tt) × (o ≡ some (ok b, s'))
guarded-ok (throws e) s o h = absurd cc
guarded-ok (ok _) s o h = (refl, h)

with_period-some :
    {R B : Type 0} (o : Option R) (next : R → Option B) {b : B}
    → with_period o next ≡ some b
    → (r : R) × (o ≡ some r) × (next r ≡ some b)
with_period-some none next h = absurd cc
with_period-some (some r) next h = (r, refl, h)

module _ (A : Arithmetic) (E : Engine A) (zero_first : StartsAtZero A)
    (limits : FeasibilityLimits A) where
  samples_of-lt :
      (period max_frequency : A.Real)
      → validate_limits A limits ≡ ok tt
      → (m : ℕ) × (samples_of A period max_frequency limits ≡ suc m)
  unfolding validate_limits
  samples_of-lt period max_frequency e =
      let enough = (require-All (limit_conditions A limits) e).1.1.1.1.1.1.1.1.1.0 in
      go (samples_of A period max_frequency limits) (ground (arith, enough))
    where
      go : (n : ℕ) → 1 ≤ n → (m : ℕ) × (n ≡ suc m)
      go zero h = absurd (omega (arith, h))
      go (suc m) h = (m, refl)

  validate_samples-first :
      (evaluate : A.Real → CurveState A) (period : A.Real) (m : ℕ)
      → (is_positive A period && A.is_finite period) ≡ true
      → validate_samples A evaluate period limits (suc m) (suc m) 0 ≡ ok tt
      → Feasible A limits (evaluate (A.lit 0 0))
  unfolding validate_samples
  validate_samples-first evaluate period m good e =
      let (_, first, _) = >>=-eq-ok _ _ e in
      throw_if_infeasible-Feasible A limits (evaluate (A.lit 0 0)) (
        subst (λ u. throw_if_infeasible A (evaluate u) limits ≡ ok tt) (zero_first period m good)
          first)

  validate_curve-first :
      (evaluate : A.Real → CurveState A) (period max_frequency : A.Real)
      → validate_limits A limits ≡ ok tt
      → validate_curve A evaluate period max_frequency limits ≡ ok tt
      → Feasible A limits (evaluate (A.lit 0 0))
  unfolding validate_curve
  validate_curve-first evaluate period max_frequency valid e =
      let (_, positive, sampled) = >>=-eq-ok _ _ e in
      let (good, _) = require-All ((is_positive A period && A.is_finite period) ∷ []) positive in
      let (m, is_suc) = samples_of-lt period max_frequency valid in
      validate_samples-first evaluate period m good
        (subst (λ n. validate_samples A evaluate period limits n n 0 ≡ ok tt) is_suc sampled)

  waypoints_along-Along :
      (evaluate : A.Real → CurveState A) (max_frequency min_dist max_dist period : A.Real)
      (fuel : ℕ) (rng rng' : E.Rng) (ps : List (List A.Real))
      → validate_limits A limits ≡ ok tt
      → waypoints_along A E evaluate max_frequency min_dist max_dist period limits fuel rng
        ≡ some (ok ps, rng')
      → Along A evaluate limits period ps
  unfolding waypoints_along
  waypoints_along-Along evaluate max_frequency min_dist max_dist period fuel rng rng' ps valid h =
      let (p, qs, e, rest, is_ps) = then_points-ok _ rng _ ps rng' h in
      let (_, curve, first) = >>=-eq-ok _ _ e in
      subst (Along A evaluate limits period) (sym is_ps) (
        validate_curve-first evaluate period max_frequency valid curve,
        first,
        waypoint_loop-Ahead A evaluate limits E period min_dist max_dist fuel fuel (A.lit 0 0) rng
            rng' qs rest,
      )

module _ (A : Arithmetic) (E : Engine A) where
  -- What a request promises of the waypoints that it returns.
  abbrev pub Follows :
      ℕ
      → Request A
      → A.Real
      → A.Real
      → A.Real
      → FeasibilityLimits A
      → E.Rng
      → List (List A.Real)
      → Type 0
  Follows fuel (on_circle radius center_x center_y) min_dist max_dist height limits rng ps =
      let evaluate = circle A radius center_x center_y height in
      Feasible A limits (evaluate (A.lit 0 0))
      × Around A evaluate limits E radius min_dist max_dist (A.lit 0 0) rng ps
  Follows fuel (in_xy x y) min_dist max_dist height limits rng ps =
      (period : A.Real) × (closing A fuel (in_xy x y) ≡ some period)
      × Along A (lissajous_2d A x y height) limits period ps
  Follows fuel (in_yz y z x_offset) min_dist max_dist height limits rng ps =
      (period : A.Real) × (closing A fuel (in_yz y z x_offset) ≡ some period)
      × Along A (lissajous_yz A y z x_offset height) limits period ps
  Follows fuel (in_space x y z) min_dist max_dist height limits rng ps =
      (period : A.Real) × (closing A fuel (in_space x y z) ≡ some period)
      × Along A (lissajous_3d A x y z height) limits period ps

  validated :
      (min_dist max_dist : A.Real) (limits : FeasibilityLimits A) (more : Result (Unit {0}))
      → (validate_request A min_dist max_dist limits >>= λ _. more) ≡ ok tt
      → (validate_limits A limits ≡ ok tt) × (more ≡ ok tt)
  validated min_dist max_dist limits more e =
      let (_, e1, e2) = >>=-eq-ok (validate_request A min_dist max_dist limits) (λ _. more) e in
      let (_, _, valid) =
        >>=-eq-ok (validate_spacing A min_dist max_dist) (λ _. validate_limits A limits) e1 in
      (valid, e2)

  -- The waypoints that a request returns lie on its curve, the first at the parameter 0 and each
  -- other one further along by more than EPSILON and before the end of the period. Those of a
  -- Lissajous curve are all at places where what flying the curve at the greatest speed asks for is
  -- within the usable part of each limit; of a circle this holds at the angle 0, and
  -- each angle between two waypoints is the distance that the engine draws between the bounds asked
  -- for, from the state that the draws before have left, or else the distance that the limit on the
  -- turn allows, over the radius; the waypoints go once around. The first sample of a period is taken
  -- to be at 0.
  pub generate-Follows :
      StartsAtZero A
      → (fuel : ℕ) (q : Request A) (min_dist max_dist height : A.Real)
        (limits : FeasibilityLimits A) (rng rng' : E.Rng) (ps : List (List A.Real))
      → generate A E fuel q min_dist max_dist height limits rng ≡ some (ok ps, rng')
      → Follows fuel q min_dist max_dist height limits rng ps
  unfolding generate generate_circle_waypoints generate_lissajous_2d generate_yz_lissajous
      generate_lissajous_3d closing
  generate-Follows zero_first fuel (on_circle radius center_x center_y) min_dist max_dist height
        limits rng rng' ps h =
      let evaluate = circle A radius center_x center_y height in
      let more : Result (Unit {0}) = require (is_positive A radius ∷ []) >>= λ _.
      throw_if_infeasible A (evaluate (A.lit 0 0)) limits in
      let (tested, made) =
        guarded-ok (validate_request A min_dist max_dist limits >>= λ _. more) rng _ h in
      let (_, passed) = validated min_dist max_dist limits more tested in
      let (_, _, flown) =
        >>=-eq-ok (require (is_positive A radius ∷ []))
          (λ _. throw_if_infeasible A (evaluate (A.lit 0 0)) limits) passed in
      (
        throw_if_infeasible-Feasible A limits (evaluate (A.lit 0 0)) flown,
        circle_loop-Around A evaluate limits E radius min_dist max_dist fuel (A.lit 0 0) rng rng' ps
            made,
      )
  generate-Follows zero_first fuel (in_xy x y) min_dist max_dist height limits rng rng' ps h =
      let (tested, made) =
        guarded-ok (validate_request A min_dist max_dist limits >>= λ _. validate_two A x y) rng _
          h in
      let (valid, _) = validated min_dist max_dist limits (validate_two A x y) tested in
      let (period, closed, along) = with_period-some _ _ made in
      (
        period,
        closed,
        waypoints_along-Along A E zero_first limits (lissajous_2d A x y height)
            (greatest_of_two A x y) min_dist max_dist period fuel rng rng' ps valid along,
      )
  generate-Follows zero_first fuel (in_yz y z x_offset) min_dist max_dist height limits rng rng' ps
        h =
      let (tested, made) =
        guarded-ok (validate_request A min_dist max_dist limits >>= λ _. validate_two A y z) rng _
          h in
      let (valid, _) = validated min_dist max_dist limits (validate_two A y z) tested in
      let (period, closed, along) = with_period-some _ _ made in
      (
        period,
        closed,
        waypoints_along-Along A E zero_first limits (lissajous_yz A y z x_offset height)
            (greatest_of_two A y z) min_dist max_dist period fuel rng rng' ps valid along,
      )
  generate-Follows zero_first fuel (in_space x y z) min_dist max_dist height limits rng rng' ps h =
      let (tested, made) =
        guarded-ok (validate_request A min_dist max_dist limits >>= λ _. validate_three A x y z) rng
          _ h in
      let (valid, _) = validated min_dist max_dist limits (validate_three A x y z) tested in
      let (period, closed, along) = with_period-some _ _ made in
      (
        period,
        closed,
        waypoints_along-Along A E zero_first limits (lissajous_3d A x y z height)
            (greatest_of_three A x y z) min_dist max_dist period fuel rng rng' ps valid along,
      )
