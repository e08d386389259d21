-- ===== src/Waypoints/Sampler/Samples.antt =====
-- What a sampler returns, and that it does.
use gz_drl.Base.{
  ℕ, zero, suc, ◌≤◌, ◌≡◌, refl, sym, ap, subst, ◌∙◌, ◌⊎◌, inl, inr, Bool, Option, none, some, List,
  arith, leb, if◌then◌else◌, Bool-cases, length, runtime_error, Result, ok, throws,
}
use gz_drl.Waypoints.{Arithmetic}
use gz_drl.Waypoints.Curves.{FeasibilityLimits}
use gz_drl.Waypoints.Loops.{Engine, bound_of}
use gz_drl.Waypoints.Generators.{Request, on_circle, in_xy, in_yz, in_space, closing}
use gz_drl.Waypoints.Numbers.{Finite, Fine, Returns}
use gz_drl.Waypoints.Requests.{generate-Returns}
use gz_drl.Waypoints.Safety.{StartsAtZero, Follows, generate-Follows}
use gz_drl.Waypoints.Sampler.{
  TrajectoryType, xy_lissajous, yz_lissajous, lissajous_in_space, xy_circle, Config, Sample, flit,
  validate_config, limits_of, fallback, candidate_at, candidate, Sampled, make_sample, ask,
  then_fallback, then_attempt, attempts, generate_of_type,
}

-- A request of the type, with frequencies 1 along the ground and 2 upward.
abbrev pub Fits : (A : Arithmetic) → TrajectoryType → Request A → Type 0
Fits A xy_lissajous (in_xy x y) = (x.frequency ≡ flit A 1 0) × (y.frequency ≡ flit A 1 0)
Fits A yz_lissajous (in_yz y z x_offset) = (y.frequency ≡ flit A 1 0) × (z.frequency ≡ flit A 2 0)
Fits A lissajous_in_space (in_space x y z) =
    (x.frequency ≡ flit A 1 0) × (y.frequency ≡ flit A 1 0) × (z.frequency ≡ flit A 2 0)
Fits A xy_circle (on_circle radius center_x center_y) = Unit
Fits A _ _ = ⊥

module _ (A : Arithmetic) (E : Engine A) where
  fallback-Fits : (kind : TrajectoryType) → Fits A kind (fallback A kind)
  unfolding fallback
  fallback-Fits xy_lissajous = (refl, refl)
  fallback-Fits yz_lissajous = (refl, refl)
  fallback-Fits lissajous_in_space = (refl, refl, refl)
  fallback-Fits xy_circle = tt

  candidate-Fits :
      (kind : TrajectoryType) (config : Config A) (rng : E.Rng)
      → Fits A kind (candidate A E kind config rng).0
  unfolding candidate candidate_at
  candidate-Fits xy_lissajous config rng = (refl, refl)
  candidate-Fits yz_lissajous config rng = (refl, refl)
  candidate-Fits lissajous_in_space config rng = (refl, refl, refl)
  candidate-Fits xy_circle config rng = tt

  module _ (fuel : ℕ) (kind : TrajectoryType) (base_limits : FeasibilityLimits A)
      (config : Config A) where
    -- What a sample promises: it has the type and the speed asked for, and its waypoints follow a
    -- curve of the type within the limits of the type. There are four at least, or the curve is the
    -- one of the fallback.
    abbrev pub Keeps : Sample A → Type 0
    Keeps sample =
        (sample.kind ≡ kind)
        × (sample.checked_max_speed ≡ (limits_of A kind base_limits config).max_speed)
        × (q : Request A) × Fits A kind q
        × ((gen : E.Rng) × Follows A E fuel q config.min_waypoint_distance
              config.max_waypoint_distance config.nominal_height
              (limits_of A kind base_limits config) gen sample.waypoints)
        × ((4 ≤ length sample.waypoints) ⊎ (q ≡ fallback A kind))

    module _ (zero_first : StartsAtZero A) where
      follows :
          (q : Request A) (gen gen' : E.Rng) (ps : List (List A.Real))
          → ask A E fuel kind base_limits config q gen ≡ some (ok ps, gen')
          → Follows A E fuel q config.min_waypoint_distance config.max_waypoint_distance
              config.nominal_height
              (limits_of A kind base_limits config)
              gen
              ps
      follows q gen gen' ps e =
          generate-Follows A E zero_first fuel q config.min_waypoint_distance
            config.max_waypoint_distance config.nominal_height (limits_of A kind base_limits config)
            gen gen' ps e

      then_fallback-Keeps :
          (o : Option (Result (List (List A.Real)) × E.Rng)) (rng gen rng' gen' : E.Rng)
          (sample : Sample A)
          → ask A E fuel kind base_limits config (fallback A kind) gen ≡ o
          → then_fallback A E fuel kind base_limits config o rng ≡ some (ok sample, rng', gen')
          → Keeps sample
      unfolding then_fallback
      then_fallback-Keeps none rng gen rng' gen' sample asked h = absurd cc
      then_fallback-Keeps (some (throws e, g)) rng gen rng' gen' sample asked h = absurd cc
      then_fallback-Keeps (some (ok ps, g)) rng gen rng' gen' sample asked h =
          let made : make_sample A E fuel kind base_limits config ps ≡ sample = cc in
          subst Keeps made (
            refl,
            refl,
            fallback A kind,
            fallback-Fits kind,
            (gen, follows (fallback A kind) gen g ps asked),
            inr refl,
          )

      then_attempt-Keeps :
          (q : Request A) (o : Option (Result (List (List A.Real)) × E.Rng))
          (rng gen rng' gen' : E.Rng) (next : E.Rng → Sampled A E) (sample : Sample A)
          → Fits A kind q
          → ask A E fuel kind base_limits config q gen ≡ o
          → ((g : E.Rng) → next g ≡ some (ok sample, rng', gen') → Keeps sample)
          → then_attempt A E fuel kind base_limits config o rng next ≡ some (ok sample, rng', gen')
          → Keeps sample
      unfolding then_attempt
      then_attempt-Keeps q none rng gen rng' gen' next sample fits asked keep h = absurd cc
      then_attempt-Keeps q (some (throws e, g)) rng gen rng' gen' next sample fits asked keep h =
          keep g h
      then_attempt-Keeps q (some (ok ps, g)) rng gen rng' gen' next sample fits asked keep h =
          let made = make_sample A E fuel kind base_limits config ps in
          let tried = λ (b : Bool). if b then some (ok made, rng, g) else next g in
          elim (Bool-cases (leb 4 (length ps))) [
            | inr few ↦ keep g (sym (ap tried few) ∙ h)
            | inl enough ↦
                let taken : some (ok made, rng, g) ≡ some (ok sample, rng', gen') =
                  sym (ap tried enough) ∙ h in
                let same : made ≡ sample = cc in
                subst Keeps same (
                  refl,
                  refl,
                  q,
                  fits,
                  (gen, follows q gen g ps asked),
                  inl (ground (arith, enough)),
                )
          ]

      attempts-Keeps :
          (n : ℕ) (rng gen rng' gen' : E.Rng) (sample : Sample A)
          → attempts A E fuel kind base_limits config n rng gen ≡ some (ok sample, rng', gen')
          → Keeps sample
      unfolding attempts
      attempts-Keeps zero rng gen rng' gen' sample h =
          then_fallback-Keeps (ask A E fuel kind base_limits config (fallback A kind) gen) rng gen
            rng' gen' sample refl h
      attempts-Keeps (suc n) rng gen rng' gen' sample h =
          let drawn = candidate A E kind config rng in
          then_attempt-Keeps drawn.0 (ask A E fuel kind base_limits config drawn.0 gen) drawn.1 gen
            rng' gen' (λ g. attempts A E fuel kind base_limits config n drawn.1 g) sample
            (candidate-Fits kind config rng) refl
            (λ g e. attempts-Keeps n drawn.1 g rng' gen' sample e) h

      -- A sample that `GenerateOfType` returns has the type asked for and the greatest speed of the
      -- limits it was checked against, which for YZ curves are their own; its waypoints are those
      -- of a curve of the type, with frequencies 1 along the ground and 2 upward, as the generator
      -- promises them within these limits. There are four at least, where the curve is not the one of
      -- the fallback. The first sample of a period is taken to be at 0.
      pub generate_of_type-Keeps :
          (rng gen rng' gen' : E.Rng) (sample : Sample A)
          → generate_of_type A E fuel kind base_limits config rng gen ≡ some (ok sample, rng', gen')
          → Keeps sample
      unfolding generate_of_type
      generate_of_type-Keeps rng gen rng' gen' sample h = go (validate_config A config) h
        where
          go :
              (r : Result (Unit {0}))
              → (elim r as (λ _. Sampled A E) [
                | throws e ↦ some (throws e, rng, gen)
                | ok _ ↦
                    attempts A E fuel kind base_limits config config.max_parameter_attempts rng gen
              ])
                ≡ some (ok sample, rng', gen')
              → Keeps sample
          go (throws e) h = absurd cc
          go (ok _) h = attempts-Keeps config.max_parameter_attempts rng gen rng' gen' sample h

module _ (A : Arithmetic) (E : Engine A) (G : Finite A) (n : ℕ) (long : G.top ≤ n) where
  module _ (kind : TrajectoryType) (base_limits : FeasibilityLimits A) (config : Config A)
      (fine : (q : Request A) (period : A.Real)
        → Fits A kind q
        → closing A (suc n) q ≡ some period
        → Fine A (bound_of A period)) where
    ask-Returns :
        (q : Request A) (gen : E.Rng)
        → Fits A kind q
        → Returns (ask A E (suc n) kind base_limits config q gen)
    ask-Returns q gen fits =
        generate-Returns A E G n q config.min_waypoint_distance config.max_waypoint_distance
          config.nominal_height (limits_of A kind base_limits config) gen long
          (λ period e. fine q period fits e)

    then_fallback-Returns :
        (o : Option (Result (List (List A.Real)) × E.Rng)) (rng : E.Rng)
        → Returns o
        → Returns (then_fallback A E (suc n) kind base_limits config o rng)
    unfolding then_fallback
    then_fallback-Returns none rng (r, e) = absurd cc
    then_fallback-Returns (some (throws e, g)) rng h = ((throws runtime_error, rng, g), refl)
    then_fallback-Returns (some (ok ps, g)) rng h =
        ((ok (make_sample A E (suc n) kind base_limits config ps), rng, g), refl)

    then_attempt-Returns :
        (o : Option (Result (List (List A.Real)) × E.Rng)) (rng : E.Rng)
        (next : E.Rng → Sampled A E)
        → Returns o
        → ((g : E.Rng) → Returns (next g))
        → Returns (then_attempt A E (suc n) kind base_limits config o rng next)
    unfolding then_attempt
    then_attempt-Returns none rng next (r, e) keep = absurd cc
    then_attempt-Returns (some (throws e, g)) rng next h keep = keep g
    then_attempt-Returns (some (ok ps, g)) rng next h keep = elim (Bool-cases (leb 4 (length ps))) [
      | inr few ↦ rw few (keep g)
      | inl enough ↦
          rw enough ((ok (make_sample A E (suc n) kind base_limits config ps), rng, g), refl)
    ]

    attempts-Returns :
        (m : ℕ) (rng gen : E.Rng) → Returns (attempts A E (suc n) kind base_limits config m rng gen)
    unfolding attempts
    attempts-Returns zero rng gen =
        then_fallback-Returns (ask A E (suc n) kind base_limits config (fallback A kind) gen) rng
          (ask-Returns (fallback A kind) gen (fallback-Fits A E kind))
    attempts-Returns (suc m) rng gen =
        let drawn = candidate A E kind config rng in
        then_attempt-Returns (ask A E (suc n) kind base_limits config drawn.0 gen) drawn.1
          (λ g. attempts A E (suc n) kind base_limits config m drawn.1 g)
          (ask-Returns drawn.0 gen (candidate-Fits A E kind config rng))
          (λ g. attempts-Returns m drawn.1 g)

    -- Where the numbers are finitely many, and finer than EPSILON from 0 to the periods of the curves of
    -- the type, GenerateOfType returns, with a sample or an exception, whatever its arguments and
    -- whatever numbers are drawn.
    pub generate_of_type-Returns :
        (rng gen : E.Rng) → Returns (generate_of_type A E (suc n) kind base_limits config rng gen)
    unfolding generate_of_type
    generate_of_type-Returns rng gen = go (validate_config A config)
      where
        go :
            (r : Result (Unit {0}))
            → Returns (elim r as (λ _. Sampled A E) [
              | throws e ↦ some (throws e, rng, gen)
              | ok _ ↦
                  attempts A E (suc n) kind base_limits config config.max_parameter_attempts rng gen
            ])
        go (throws e) = ((throws e, rng, gen), refl)
        go (ok _) = attempts-Returns config.max_parameter_attempts rng gen
