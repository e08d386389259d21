-- ===== src/Waypoints/Ends.antt =====
-- The loops of the generators end: there are finitely many numbers, and each round moves on.
use gz_drl.Base.{
  ℕ, zero, suc, ◌+◌, ◌≤◌, ◌<◌, ◌≡◌, refl, sym, ap, ◌∙◌, inl, inr, Bool, true, false, Option, none,
  some, List, [], arith, if◌then◌else◌, Bool-cases, runtime_error, Result, ok, throws, ◌>>=◌,
  if-else,
}
use gz_drl.Waypoints.{Arithmetic, epsilon, min_of}
use gz_drl.Waypoints.Numbers.{Finite, Fine, Returns, then_points-Returns}
use gz_drl.Waypoints.Curves.{CurveState, FeasibilityLimits, norm, curvature_vector}
use gz_drl.Waypoints.Loops.{
  Engine, Advance, stops, goes, bound_of, advance_by, advance_round, advance, then_advance,
  then_waypoint, waypoint_loop,
}

-- What two calls give, where both return.
both-ok :
    {B D : Type 0} (m n : Result B) (f : B → B → D) {d : D}
    → (m >>= λ b. n >>= λ c. ok (f b c)) ≡ ok d
    → (b : B) × (c : B) × (f b c ≡ d)
both-ok (throws e) n f h = cc
both-ok (ok b) (throws e) f h = cc
both-ok (ok b) (ok c) f h = (b, c, cc)

module _ (A : Arithmetic) (evaluate : A.Real → CurveState A) (limits : FeasibilityLimits A) where
  advance_by-goes :
      (requested p d t du ds dturn p' d' t' : A.Real)
      → advance_by A limits requested p d t du ds dturn ≡ goes p' d' t'
      → A.plus p du ≡ p'
  unfolding advance_by
  advance_by-goes requested p d t du ds dturn p' d' t' e = ground (arith, e)

  -- A round that goes on has added a step of more than `epsilon`.
  advance_round-goes :
      (period requested p d t p' d' t' : A.Real)
      → advance_round A evaluate period requested limits p d t ≡ ok (goes p' d' t')
      → (du : A.Real) × (p' ≡ A.plus p du) × (A.le du (epsilon A) ≡ false)
  unfolding advance_round advance_by
  advance_round-goes period requested p d t p' d' t' e =
      let current = evaluate p in
      let speed = norm A current.first_derivative in
      let du =
        min_of A (min_of A limits.max_parameter_step (A.over limits.integration_arc_step speed))
          (A.minus period p) in
      let next = evaluate (A.plus p du) in
      let (_, e1) = if-else (A.le speed limits.min_parameter_speed) e (λ h. cc) in
      let (far, e2) = if-else (A.le du (epsilon A)) e1 (λ h. cc) in
      let (_, e3) =
        if-else (A.le (norm A next.first_derivative) limits.min_parameter_speed) e2 (λ h. cc) in
      let ds = A.times (A.times (A.lit 5 1) (A.plus speed (norm A next.first_derivative))) du in
      let (kappa, kappa_next, e4) =
        both-ok (curvature_vector A current limits.min_parameter_speed)
          (curvature_vector A next limits.min_parameter_speed)
          (λ k l.
            advance_by A limits requested p d t du ds
              (A.times (A.times (A.lit 5 1) (A.plus (norm A k) (norm A l))) ds))
          e3 in
      (du, sym (advance_by-goes requested p d t du ds _ p' d' t' e4), far)

module _ (A : Arithmetic) (G : Finite A) (evaluate : A.Real → CurveState A) (period : A.Real)
    (limits : FeasibilityLimits A) (M : Fine A (bound_of A period)) where
  advance_out :
      (requested : A.Real) (n : ℕ) (p d t : A.Real)
      → A.lt p (bound_of A period) ≡ false
      → Returns (advance A evaluate period requested limits (suc n) p d t)
  unfolding advance
  advance_out requested n p d t out = (ok (false, p), rw out refl)

  -- Where the next parameter is inside, it is further on.
  abbrev Further : A.Real → A.Real → Type 0
  Further p p' = (G.rank p < G.rank p') × (A.le (A.lit 0 0) p' ≡ true)

  then_advance-Returns :
      (requested p d t : A.Real) (r : Result (Advance A.Real))
      (next : A.Real → A.Real → A.Real → Option (Result (Bool × A.Real)))
      → A.lt p (bound_of A period) ≡ true
      → A.le (A.lit 0 0) p ≡ true
      → advance_round A evaluate period requested limits p d t ≡ r
      → ((p' d' t' : A.Real)
          → (A.lt p' (bound_of A period) ≡ true → Further p p')
          → Returns (next p' d' t'))
      → Returns (then_advance A r next)
  then_advance-Returns requested p d t (throws x) next inside from e keep = (throws x, refl)
  then_advance-Returns requested p d t (ok (stops b p')) next inside from e keep =
      (ok (b, p'), refl)
  then_advance-Returns requested p d t (ok (goes p' d' t')) next inside from e keep =
      let (du, moved, far) =
        advance_round-goes A evaluate limits period requested p d t p' d' t' e in
      keep p' d' t' (λ inside'.
        let stays : A.lt (A.plus p du) (bound_of A period) ≡ true =
          ap (λ q. A.lt q (bound_of A period)) (sym moved) ∙ inside' in
        let on = ap (A.lt p) moved ∙ M.moves p du from far inside stays in
        (G.rank_lt p p' on, G.above_from p p' from on))

  advance_in :
      (requested : A.Real) (n : ℕ) (p d t : A.Real)
      → A.lt p (bound_of A period) ≡ true
      → advance A evaluate period requested limits (suc n) p d t
        ≡ then_advance A
            (advance_round A evaluate period requested limits p d t)
            (advance A evaluate period requested limits n)
  unfolding advance
  advance_in requested n p d t inside =
      ap
        (λ b.
          if b
          then then_advance A (advance_round A evaluate period requested limits p d t)
              (advance A evaluate period requested limits n)
          else some (ok (false, p)))
        inside

  -- Enough rounds are as many as there are numbers up to the bound.
  advance-Returns :
      (requested : A.Real) (n : ℕ) (p d t : A.Real)
      → G.rank (bound_of A period) ≤ n + G.rank p
      → A.le (A.lit 0 0) p ≡ true
      → Returns (advance A evaluate period requested limits (suc n) p d t)
  advance-Returns requested zero p d t enough from =
      elim (Bool-cases (A.lt p (bound_of A period))) [
        | inr out ↦ advance_out requested zero p d t out
        | inl inside ↦ absurd (omega (arith, enough, G.rank_lt p (bound_of A period) inside))
      ]
  advance-Returns requested (suc n) p d t enough from =
      elim (Bool-cases (A.lt p (bound_of A period))) [
        | inr out ↦ advance_out requested (suc n) p d t out
        | inl inside ↦
            let next = advance A evaluate period requested limits (suc n) in
            let (r, e) =
              then_advance-Returns requested p d t
                (advance_round A evaluate period requested limits p d t) next inside from refl
                (λ p' d' t' on. elim (Bool-cases (A.lt p' (bound_of A period))) [
                  | inr out ↦ advance_out requested n p' d' t' out
                  | inl inside' ↦
                      advance-Returns requested n p' d' t' (omega (arith, enough, (on inside').0))
                        (on inside').1
                ]) in
            (r, advance_in requested (suc n) p d t inside ∙ e)
      ]

module _ (A : Arithmetic) (E : Engine A) (G : Finite A) (evaluate : A.Real → CurveState A)
    (period : A.Real) (limits : FeasibilityLimits A) (M : Fine A (bound_of A period)) where
  then_waypoint-Returns :
      (u : A.Real) (rng : E.Rng) (o : Option (Result (Bool × A.Real)))
      (next : A.Real → Option (Result (List (List A.Real)) × E.Rng))
      → A.lt u (bound_of A period) ≡ true
      → A.le (A.lit 0 0) u ≡ true
      → Returns o
      → ((v : A.Real)
          → (A.lt v (bound_of A period) ≡ true
              → (G.rank u < G.rank v) × (A.le (A.lit 0 0) v ≡ true))
          → Returns (next v))
      → Returns (then_waypoint A E evaluate period limits u rng o next)
  unfolding then_waypoint
  then_waypoint-Returns u rng none next inside from (r, e) keep = absurd cc
  then_waypoint-Returns u rng (some (throws x)) next inside from h keep = ((throws x, rng), refl)
  then_waypoint-Returns u rng (some (ok (false, v))) next inside from h keep = ((ok [], rng), refl)
  then_waypoint-Returns u rng (some (ok (true, v))) next inside from h keep =
      elim (Bool-cases (A.le (bound_of A period) v)) [
        | inl past ↦ rw past ((ok [], rng), refl)
        | inr short ↦ elim (Bool-cases (A.le v (A.plus u (epsilon A)))) [
          | inl stuck ↦ rw (short, stuck) ((throws runtime_error, rng), refl)
          | inr further ↦
              rw (short, further)
                (then_points-Returns _ rng (next v) (
                  keep v (λ inside'.
                    let on = M.ahead u v from inside inside' further in
                    (G.rank_lt u v on, G.above_from u v from on))))
        ]
      ]

  waypoint_out :
      (min_dist max_dist : A.Real) (steps n : ℕ) (u : A.Real) (rng : E.Rng)
      → A.lt u (bound_of A period) ≡ false
      → Returns (waypoint_loop A E evaluate period min_dist max_dist limits steps (suc n) u rng)
  unfolding waypoint_loop
  waypoint_out min_dist max_dist steps n u rng out = ((ok [], rng), rw out refl)

  waypoint_in :
      (min_dist max_dist : A.Real) (steps n : ℕ) (u : A.Real) (rng : E.Rng)
      → A.lt u (bound_of A period) ≡ true
      → waypoint_loop A E evaluate period min_dist max_dist limits steps (suc n) u rng
        ≡ then_waypoint A E evaluate period limits u
            (E.uniform min_dist max_dist rng).1
            (advance A evaluate period
              (E.uniform min_dist max_dist rng).0
              limits
              steps
              u
              (A.lit 0 0)
              (A.lit 0 0))
            (λ v.
              waypoint_loop A E evaluate period min_dist max_dist limits steps n v
                (E.uniform min_dist max_dist rng).1)
  unfolding waypoint_loop
  waypoint_in min_dist max_dist steps n u rng inside =
      ap
        (λ b.
          if b
          then then_waypoint A E evaluate period limits u (E.uniform min_dist max_dist rng).1
              (advance A evaluate period (E.uniform min_dist max_dist rng).0 limits steps u
                (A.lit 0 0) (A.lit 0 0))
              (λ v.
                waypoint_loop A E evaluate period min_dist max_dist limits steps n v
                  (E.uniform min_dist max_dist rng).1)
          else some (ok [], rng))
        inside

  pub waypoint_loop-Returns :
      (min_dist max_dist : A.Real) (steps n : ℕ) (u : A.Real) (rng : E.Rng)
      → G.top ≤ steps
      → G.rank (bound_of A period) ≤ n + G.rank u
      → A.le (A.lit 0 0) u ≡ true
      → Returns
          (waypoint_loop A E evaluate period min_dist max_dist limits (suc steps) (suc n) u rng)
  waypoint_loop-Returns min_dist max_dist steps zero u rng long enough from =
      elim (Bool-cases (A.lt u (bound_of A period))) [
        | inr out ↦ waypoint_out min_dist max_dist (suc steps) zero u rng out
        | inl inside ↦ absurd (omega (arith, enough, G.rank_lt u (bound_of A period) inside))
      ]
  waypoint_loop-Returns min_dist max_dist steps (suc n) u rng long enough from =
      elim (Bool-cases (A.lt u (bound_of A period))) [
        | inr out ↦ waypoint_out min_dist max_dist (suc steps) (suc n) u rng out
        | inl inside ↦
            let drawn = E.uniform min_dist max_dist rng in
            let nought = A.lit 0 0 in
            let (r, e) =
              then_waypoint-Returns u drawn.1
                (advance A evaluate period drawn.0 limits (suc steps) u nought nought)
                (λ v.
                  waypoint_loop A E evaluate period min_dist max_dist limits (suc steps) (suc n) v
                    drawn.1)
                inside from
                (advance-Returns A G evaluate period limits M drawn.0 steps u nought nought
                  (omega (arith, long, G.rank_le (bound_of A period))) from)
                (λ v on. elim (Bool-cases (A.lt v (bound_of A period))) [
                  | inr out ↦ waypoint_out min_dist max_dist (suc steps) n v drawn.1 out
                  | inl inside' ↦
                      waypoint_loop-Returns min_dist max_dist steps n v drawn.1 long
                        (omega (arith, enough, (on inside').0)) (on inside').1
                ]) in
            (r, waypoint_in min_dist max_dist (suc steps) (suc n) u rng inside ∙ e)
      ]
