-- ===== src/Waypoints/Follows.antt =====
-- The waypoints that a generator returns lie on their curve, in order, and can be flown.
use gz_drl.Base.{
  ℕ, zero, suc, ◌≡◌, refl, sym, ap, subst, ◌∙◌, inl, inr, Bool, true, false, Option, none, some,
  List, [], ◌∷◌, if◌then◌else◌, Bool-cases, runtime_error, Result, ok, throws, ◌>>=◌, >>=-eq-ok,
}
use gz_drl.Waypoints.{Arithmetic, epsilon, min_of}
use gz_drl.Waypoints.Curves.{
  Vec3, CurveState, FeasibilityLimits, curvature_vector, metrics_of, compute_metrics,
  metrics_are_feasible, make_point, throw_if_infeasible,
}
use gz_drl.Waypoints.Loops.{
  Engine, bound_of, then_points, then_waypoint, advance, waypoint_loop, circle_loop,
}

-- Points that are returned are the first one and those behind it.
pub then_points-ok :
    {P S : Type 0} (r : Result P) (s : S) (o : Option (Result (List P) × S)) (ps : List P) (s' : S)
    → then_points r s o ≡ some (ok ps, s')
    → (p : P) × (qs : List P) × (r ≡ ok p) × (o ≡ some (ok qs, s')) × (ps ≡ p ∷ qs)
then_points-ok (throws e) s o ps s' h = cc
then_points-ok (ok p) s none ps s' h = cc
then_points-ok (ok p) s (some (throws e, t)) ps s' h = cc
then_points-ok (ok p) s (some (ok qs, t)) ps s' h =
    let same : p ∷ qs ≡ ps = cc in
    let last : t ≡ s' = cc in (p, qs, refl, ap (λ x. some (ok qs, x)) last, sym same)

module _ (A : Arithmetic) (limits : FeasibilityLimits A) where
  -- The curve does not stand still, and what flying it at the greatest speed asks for is within
  -- the usable part of each limit.
  abbrev pub Feasible : CurveState A → Type 0
  Feasible state =
      (c : Vec3 A) × (curvature_vector A state limits.min_parameter_speed ≡ ok c)
      × (metrics_are_feasible A (metrics_of A state limits c) limits ≡ true)

  pub throw_if_infeasible-Feasible :
      (state : CurveState A) → throw_if_infeasible A state limits ≡ ok tt → Feasible state
  unfolding throw_if_infeasible compute_metrics
  throw_if_infeasible-Feasible state e =
      go (curvature_vector A state limits.min_parameter_speed) refl e
    where
      go :
          (r : Result (Vec3 A))
          → curvature_vector A state limits.min_parameter_speed ≡ r
          → (r >>= (λ c. ok (metrics_of A state limits c)) >>= λ m.
              if metrics_are_feasible A m limits then ok (tt {0}) else throws runtime_error)
            ≡ ok tt
          → Feasible state
      go (throws x) e h = cc
      go (ok c) e h =
          elim (Bool-cases (metrics_are_feasible A (metrics_of A state limits c) limits)) [
            | inl good ↦ (c, e, good)
            | inr bad ↦
                let impossible : throws runtime_error ≡ ok (tt {0}) =
                  sym (ap (λ b. if b then ok (tt {0}) else throws runtime_error) bad) ∙ h in
                cc
          ]

module _ (A : Arithmetic) (evaluate : A.Real → CurveState A) (limits : FeasibilityLimits A) where
  -- The waypoints behind the parameter `u`: each is further along by more than EPSILON, not at the
  -- end of the period, and can be flown.
  abbrev pub Ahead : A.Real → A.Real → List (List A.Real) → Type 0
  Ahead period u [] = Unit
  Ahead period u (point ∷ points) =
      (v : A.Real) × (A.le (bound_of A period) v ≡ false)
      × (A.le v (A.plus u (epsilon A)) ≡ false)
      × Feasible A limits (evaluate v)
      × (make_point A (evaluate v) ≡ ok point)
      × Ahead period v points

  -- Those of a Lissajous curve, from the parameter 0.
  abbrev pub Along : A.Real → List (List A.Real) → Type 0
  Along period [] = ⊥
  Along period (point ∷ points) =
      Feasible A limits (evaluate (A.lit 0 0))
      × (make_point A (evaluate (A.lit 0 0)) ≡ ok point)
      × Ahead period (A.lit 0 0) points

  -- Those of a circle from the angle `theta`, for as long as it is below the whole turn: each is
  -- further by more than EPSILON, as far as the engine draws at this waypoint or the limit on the
  -- turn allows.
  abbrev pub Around :
      (E : Engine A) → A.Real → A.Real → A.Real → A.Real → E.Rng → List (List A.Real) → Type 0
  Around E radius min_dist max_dist theta rng [] =
      A.lt theta (bound_of A (A.times (A.lit 2 0) A.pi)) ≡ false
  Around E radius min_dist max_dist theta rng (point ∷ points) =
      (A.lt theta (bound_of A (A.times (A.lit 2 0) A.pi)) ≡ true)
      × (make_point A (evaluate theta) ≡ ok point)
      × (let (requested, rng') = E.uniform min_dist max_dist rng in
          let cap = A.times radius limits.max_tangent_change_rad in
          let delta = A.over (min_of A requested cap) radius in
          (A.le delta (epsilon A) ≡ false)
          × Around E radius min_dist max_dist (A.plus theta delta) rng' points)

  module _ (E : Engine A) (period : A.Real) where
    then_waypoint-Ahead :
        (u : A.Real) (rng : E.Rng) (o : Option (Result (Bool × A.Real)))
        (next : A.Real → Option (Result (List (List A.Real)) × E.Rng)) (ps : List (List A.Real))
        (rng' : E.Rng)
        → ((v : A.Real) (qs : List (List A.Real)) → next v ≡ some (ok qs, rng') → Ahead period v qs)
        → then_waypoint A E evaluate period limits u rng o next ≡ some (ok ps, rng')
        → Ahead period u ps
    unfolding then_waypoint
    then_waypoint-Ahead u rng none next ps rng' keep h = absurd cc
    then_waypoint-Ahead u rng (some (throws e)) next ps rng' keep h = absurd cc
    then_waypoint-Ahead u rng (some (ok (false, v))) next ps rng' keep h =
        let ended : [] ≡ ps = cc in subst (Ahead period u) ended tt
    then_waypoint-Ahead u rng (some (ok (true, v))) next ps rng' keep h =
        let bound = bound_of A period in
        let checked =
          throw_if_infeasible A (evaluate v) limits >>= λ _. make_point A (evaluate v) in
        let made = then_points checked rng (next v) in
        let stuck_or = λ (b : Bool). if b then some (throws runtime_error, rng) else made in
        elim (Bool-cases (A.le bound v)) [
          | inl past ↦
              let ended' : some (ok [], rng) ≡ some (ok ps, rng') =
                sym (
                  ap
                    (λ b. if b then some (ok [], rng) else stuck_or (A.le v (A.plus u (epsilon A))))
                    past)
                ∙ h in
              let ended : [] ≡ ps = cc in subst (Ahead period u) ended tt
          | inr short ↦
              let h' : stuck_or (A.le v (A.plus u (epsilon A))) ≡ some (ok ps, rng') =
                sym (
                  ap
                    (λ b. if b then some (ok [], rng) else stuck_or (A.le v (A.plus u (epsilon A))))
                    short)
                ∙ h in
              elim (Bool-cases (A.le v (A.plus u (epsilon A)))) [
                | inl stuck ↦
                    let never : some (throws runtime_error, rng) ≡ some (ok ps, rng') =
                      sym (ap stuck_or stuck) ∙ h' in
                    absurd cc
                | inr further ↦
                    let (p, qs, e, rest, is_ps) =
                      then_points-ok checked rng (next v) ps rng'
                        (sym (ap stuck_or further) ∙ h') in
                    let (_, passed, pointed) = >>=-eq-ok _ _ e in
                    subst (Ahead period u) (sym is_ps) (
                      v,
                      short,
                      further,
                      throw_if_infeasible-Feasible A limits (evaluate v) passed,
                      pointed,
                      keep v qs rest,
                    )
              ]
        ]

    pub waypoint_loop-Ahead :
        (min_dist max_dist : A.Real) (steps n : ℕ) (u : A.Real) (rng rng' : E.Rng)
        (ps : List (List A.Real))
        → waypoint_loop A E evaluate period min_dist max_dist limits steps n u rng
          ≡ some (ok ps, rng')
        → Ahead period u ps
    unfolding waypoint_loop
    waypoint_loop-Ahead min_dist max_dist steps zero u rng rng' ps h = absurd cc
    waypoint_loop-Ahead min_dist max_dist steps (suc n) u rng rng' ps h =
        let drawn = E.uniform min_dist max_dist rng in
        let advanced = advance A evaluate period drawn.0 limits steps u (A.lit 0 0) (A.lit 0 0) in
        let next = λ (v : A.Real).
          waypoint_loop A E evaluate period min_dist max_dist limits steps n v drawn.1 in
        let round = then_waypoint A E evaluate period limits u drawn.1 advanced next in
        let rounds = λ (b : Bool). if b then round else some (ok [], rng) in
        elim (Bool-cases (A.lt u (bound_of A period))) [
          | inr out ↦
              let ended' : some (ok [], rng) ≡ some (ok ps, rng') = sym (ap rounds out) ∙ h in
              let ended : [] ≡ ps = cc in subst (Ahead period u) ended tt
          | inl inside ↦
              then_waypoint-Ahead u drawn.1 advanced next ps rng'
                (λ v qs e. waypoint_loop-Ahead min_dist max_dist steps n v drawn.1 rng' qs e)
                (sym (ap rounds inside) ∙ h)
        ]

  pub circle_loop-Around :
      (E : Engine A) (radius min_dist max_dist : A.Real) (n : ℕ) (theta : A.Real) (rng rng' : E.Rng)
      (ps : List (List A.Real))
      → circle_loop A E evaluate radius min_dist max_dist
          (A.times radius limits.max_tangent_change_rad)
          n
          theta
          rng
        ≡ some (ok ps, rng')
      → Around E radius min_dist max_dist theta rng ps
  unfolding circle_loop
  circle_loop-Around E radius min_dist max_dist zero theta rng rng' ps h = absurd cc
  circle_loop-Around E radius min_dist max_dist (suc n) theta rng rng' ps h =
      let cap = A.times radius limits.max_tangent_change_rad in
      let (requested, rng1) = E.uniform min_dist max_dist rng in
      let delta = A.over (min_of A requested cap) radius in
      let rest =
        circle_loop A E evaluate radius min_dist max_dist cap n (A.plus theta delta) rng1 in
      let moved = λ (b : Bool). if b then some (throws runtime_error, rng1) else rest in
      let made = then_points (make_point A (evaluate theta)) rng (moved (A.le delta (epsilon A))) in
      let rounds = λ (b : Bool). if b then made else some (ok [], rng) in
      elim (Bool-cases (A.lt theta (bound_of A (A.times (A.lit 2 0) A.pi)))) [
        | inr out ↦
            let ended' : some (ok [], rng) ≡ some (ok ps, rng') = sym (ap rounds out) ∙ h in
            let ended : [] ≡ ps = cc in
            subst (Around E radius min_dist max_dist theta rng) ended out
        | inl inside ↦
            let (p, qs, e, later, is_ps) =
              then_points-ok (make_point A (evaluate theta)) rng (moved (A.le delta (epsilon A))) ps
                rng' (sym (ap rounds inside) ∙ h) in
            elim (Bool-cases (A.le delta (epsilon A))) [
              | inl stuck ↦
                  let never : some (throws runtime_error, rng1) ≡ some (ok qs, rng') =
                    sym (ap moved stuck) ∙ later in
                  absurd cc
              | inr far ↦ subst (Around E radius min_dist max_dist theta rng) (sym is_ps) (
                inside,
                e,
                (
                  far,
                  circle_loop-Around E radius min_dist max_dist n (A.plus theta delta) rng1 rng' qs
                      (sym (ap moved far) ∙ later),
                ),
              )
            ]
      ]
