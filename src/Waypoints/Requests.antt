-- ===== src/Waypoints/Requests.antt =====
-- Every request for waypoints is answered.
use gz_drl.Base.{
  ℕ, zero, suc, ◌+◌, ◌≤◌, ◌≡◌, refl, ap, ◌∙◌, inl, inr, true, false, Option, none, some, [], arith,
  if◌then◌else◌, Bool-cases, runtime_error, Result, ok, throws, ◌>>=◌,
}
use gz_drl.Waypoints.{Arithmetic, epsilon, min_of}
use gz_drl.Waypoints.Curves.{CurveState, FeasibilityLimits, make_point}
use gz_drl.Waypoints.Loops.{Engine, bound_of, then_points, validate_curve, circle_loop}
use gz_drl.Waypoints.Shapes.{
  lissajous_2d, lissajous_yz, lissajous_3d, circle, greatest_of_two, greatest_of_three,
}
use gz_drl.Waypoints.Generators.{
  Request, on_circle, in_xy, in_yz, in_space, guarded, with_period, waypoints_along, generate,
  generate_circle_waypoints, generate_lissajous_2d, generate_yz_lissajous, generate_lissajous_3d,
  closing,
}
use gz_drl.Waypoints.Numbers.{Finite, Fine, Returns, then_points-Returns}
use gz_drl.Waypoints.Ends.{waypoint_loop-Returns}
use gz_drl.Waypoints.Periods.{closing-Returns}

module _ (A : Arithmetic) (E : Engine A) (G : Finite A) where
  circle_out :
      (evaluate : A.Real → CurveState A) (radius min_dist max_dist cap : A.Real) (n : ℕ)
      (theta : A.Real) (rng : E.Rng)
      → A.lt theta (bound_of A (A.times (A.lit 2 0) A.pi)) ≡ false
      → Returns (circle_loop A E evaluate radius min_dist max_dist cap (suc n) theta rng)
  unfolding circle_loop
  circle_out evaluate radius min_dist max_dist cap n theta rng out = ((ok [], rng), rw out refl)

  -- The angle between two waypoints.
  abbrev pub delta_of : A.Real → A.Real → A.Real → A.Real → E.Rng → A.Real
  delta_of radius min_dist max_dist cap rng =
      A.over (min_of A (E.uniform min_dist max_dist rng).0 cap) radius

  circle_in :
      (evaluate : A.Real → CurveState A) (radius min_dist max_dist cap : A.Real) (n : ℕ)
      (theta : A.Real) (rng : E.Rng)
      → A.lt theta (bound_of A (A.times (A.lit 2 0) A.pi)) ≡ true
      → circle_loop A E evaluate radius min_dist max_dist cap (suc n) theta rng
        ≡ then_points (make_point A (evaluate theta)) rng (
            if A.le (delta_of radius min_dist max_dist cap rng) (epsilon A)
            then some (throws runtime_error, (E.uniform min_dist max_dist rng).1)
            else circle_loop A E evaluate radius min_dist max_dist cap n
                (A.plus theta (delta_of radius min_dist max_dist cap rng))
                (E.uniform min_dist max_dist rng).1)
  unfolding circle_loop
  circle_in evaluate radius min_dist max_dist cap n theta rng inside =
      ap
        (λ b.
          if b
          then then_points (make_point A (evaluate theta)) rng (
              if A.le (delta_of radius min_dist max_dist cap rng) (epsilon A)
              then some (throws runtime_error, (E.uniform min_dist max_dist rng).1)
              else circle_loop A E evaluate radius min_dist max_dist cap n
                  (A.plus theta (delta_of radius min_dist max_dist cap rng))
                  (E.uniform min_dist max_dist rng).1)
          else some (ok [], rng))
        inside

  module _ (M : Fine A (bound_of A (A.times (A.lit 2 0) A.pi))) where
    circle_loop-Returns :
        (evaluate : A.Real → CurveState A) (radius min_dist max_dist cap : A.Real) (n : ℕ)
        (theta : A.Real) (rng : E.Rng)
        → G.rank (bound_of A (A.times (A.lit 2 0) A.pi)) ≤ n + G.rank theta
        → A.le (A.lit 0 0) theta ≡ true
        → Returns (circle_loop A E evaluate radius min_dist max_dist cap (suc n) theta rng)
    circle_loop-Returns evaluate radius min_dist max_dist cap zero theta rng enough from =
        let bound = bound_of A (A.times (A.lit 2 0) A.pi) in
        elim (Bool-cases (A.lt theta bound)) [
          | inr out ↦ circle_out evaluate radius min_dist max_dist cap zero theta rng out
          | inl inside ↦ absurd (omega (arith, enough, G.rank_lt theta bound inside))
        ]
    circle_loop-Returns evaluate radius min_dist max_dist cap (suc n) theta rng enough from =
        let bound = bound_of A (A.times (A.lit 2 0) A.pi) in
        let delta = delta_of radius min_dist max_dist cap rng in
        let rng' = (E.uniform min_dist max_dist rng).1 in
        let rest =
          circle_loop A E evaluate radius min_dist max_dist cap (suc n) (A.plus theta delta) rng' in
        elim (Bool-cases (A.lt theta bound)) [
          | inr out ↦ circle_out evaluate radius min_dist max_dist cap (suc n) theta rng out
          | inl inside ↦
              let ends : Returns
                  (if A.le delta (epsilon A) then some (throws runtime_error, rng') else rest) =
                elim (Bool-cases (A.le delta (epsilon A))) [
                  | inl stuck ↦ rw stuck ((throws runtime_error, rng'), refl)
                  | inr far ↦ rw far (elim (Bool-cases (A.lt (A.plus theta delta) bound)) [
                    | inr out ↦
                        circle_out evaluate radius min_dist max_dist cap n (A.plus theta delta) rng'
                          out
                    | inl inside' ↦
                        let on = M.moves theta delta from far inside inside' in
                        circle_loop-Returns evaluate radius min_dist max_dist cap n
                          (A.plus theta delta) rng'
                          (omega (arith, enough, G.rank_lt theta (A.plus theta delta) on))
                          (G.above_from theta (A.plus theta delta) from on)
                  ])
                ] in
              let (r, e) = then_points-Returns (make_point A (evaluate theta)) rng _ ends in
              (r, circle_in evaluate radius min_dist max_dist cap (suc n) theta rng inside ∙ e)
        ]

  guarded-Returns :
      {B S : Type 0} (t : Result (Unit {0})) (s : S) (o : Option (Result B × S))
      → Returns o
      → Returns (guarded t s o)
  guarded-Returns (throws x) s o h = ((throws x, s), refl)
  guarded-Returns (ok _) s o h = h

  with_period-Returns :
      {R B : Type 0} (o : Option R) (next : R → Option B)
      → Returns o
      → ((r : R) → o ≡ some r → Returns (next r))
      → Returns (with_period o next)
  with_period-Returns none next (r, e) keep = absurd cc
  with_period-Returns (some r) next h keep = keep r refl

  waypoints_along-Returns :
      (evaluate : A.Real → CurveState A) (max_frequency min_dist max_dist period : A.Real)
      (limits : FeasibilityLimits A) (n : ℕ) (rng : E.Rng)
      → G.top ≤ n
      → Fine A (bound_of A period)
      → Returns
          (waypoints_along A E evaluate max_frequency min_dist max_dist period limits (suc n) rng)
  unfolding waypoints_along
  waypoints_along-Returns evaluate max_frequency min_dist max_dist period limits n rng long M =
      let enough : G.rank (bound_of A period) ≤ n + G.rank (A.lit 0 0) =
        omega (arith, long, G.rank_le (bound_of A period)) in
      then_points-Returns
        (validate_curve A evaluate period max_frequency limits >>= λ _.
          make_point A (evaluate (A.lit 0 0)))
        rng _
        (waypoint_loop-Returns A E G evaluate period limits M min_dist max_dist n n (A.lit 0 0) rng
          long enough G.zero_from)

  -- Where the numbers are finitely many, and finer than EPSILON from 0 to the period of the curve, a
  -- request for waypoints is answered, with the waypoints or an exception, within one round more
  -- than there are numbers in each of its loops.
  pub generate-Returns :
      (n : ℕ) (q : Request A) (min_dist max_dist height : A.Real) (limits : FeasibilityLimits A)
      (rng : E.Rng)
      → G.top ≤ n
      → ((period : A.Real) → closing A (suc n) q ≡ some period → Fine A (bound_of A period))
      → Returns (generate A E (suc n) q min_dist max_dist height limits rng)
  unfolding generate generate_circle_waypoints generate_lissajous_2d generate_yz_lissajous
      generate_lissajous_3d closing
  generate-Returns n (on_circle radius center_x center_y) min_dist max_dist height limits rng long
        fine =
      let two_pi = A.times (A.lit 2 0) A.pi in
      let enough : G.rank (bound_of A two_pi) ≤ n + G.rank (A.lit 0 0) =
        omega (arith, long, G.rank_le (bound_of A two_pi)) in
      guarded-Returns _ rng _ (
        circle_loop-Returns (fine two_pi refl) (circle A radius center_x center_y height) radius
          min_dist max_dist (A.times radius limits.max_tangent_change_rad) n (A.lit 0 0) rng enough
          G.zero_from)
  generate-Returns n (in_xy x y) min_dist max_dist height limits rng long fine =
      guarded-Returns _ rng _ (
        with_period-Returns _ _ (closing-Returns A G n (in_xy x y) long) (λ period e.
          waypoints_along-Returns (lissajous_2d A x y height) (greatest_of_two A x y) min_dist
            max_dist period limits n rng long (fine period e)))
  generate-Returns n (in_yz y z x_offset) min_dist max_dist height limits rng long fine =
      guarded-Returns _ rng _ (
        with_period-Returns _ _ (closing-Returns A G n (in_yz y z x_offset) long) (λ period e.
          waypoints_along-Returns (lissajous_yz A y z x_offset height) (greatest_of_two A y z)
            min_dist max_dist period limits n rng long (fine period e)))
  generate-Returns n (in_space x y z) min_dist max_dist height limits rng long fine =
      guarded-Returns _ rng _ (
        with_period-Returns _ _ (closing-Returns A G n (in_space x y z) long) (λ period e.
          waypoints_along-Returns (lissajous_3d A x y z height) (greatest_of_three A x y z) min_dist
            max_dist period limits n rng long (fine period e)))
