-- ===== src/Waypoints/Periods.antt =====
-- The loop of `gcd_double` ends, and so every curve has its period.
use gz_drl.Base.{
  ℕ, zero, suc, ◌≤◌, ◌<◌, ◌≡◌, refl, sym, ap, ◌∙◌, inl, inr, true, false, some, arith,
  if◌then◌else◌, Bool-cases,
}
use gz_drl.Waypoints.{Arithmetic}
use gz_drl.Waypoints.Shapes.{
  gcd_loop, gcd_double, period_of, calculate_period, calculate_period_of_three, period_of_two,
  period_of_three,
}
use gz_drl.Waypoints.Generators.{Request, on_circle, in_xy, in_yz, in_space, closing}
use gz_drl.Waypoints.Numbers.{Finite, Returns}

module _ (A : Arithmetic) (G : Finite A) where
  gcd_out : (n : ℕ) (a b : A.Real) → A.lt (A.lit 1 7) b ≡ false → gcd_loop A (suc n) a b ≡ some a
  unfolding gcd_loop
  gcd_out n a b out = rw out refl

  abbrev next_divisor : A.Real → A.Real → A.Real
  next_divisor a b =
      if A.lt (A.abs (A.minus b (A.fmod a b))) (A.lit 1 7) then A.lit 0 0 else A.fmod a b

  gcd_in :
      (n : ℕ) (a b : A.Real)
      → A.lt (A.lit 1 7) b ≡ true
      → gcd_loop A (suc n) a b ≡ gcd_loop A n b (next_divisor a b)
  unfolding gcd_loop
  gcd_in n a b inside = rw inside refl

  next_divisor-lt :
      (a b : A.Real)
      → A.lt (A.lit 1 7) b ≡ true
      → A.lt (A.lit 1 7) (next_divisor a b) ≡ true
      → G.rank (next_divisor a b) < G.rank b
  next_divisor-lt a b inside more =
      elim (Bool-cases (A.lt (A.abs (A.minus b (A.fmod a b))) (A.lit 1 7))) [
        | inl close ↦
            let zero_more : A.lt (A.lit 1 7) (A.lit 0 0) ≡ true =
              sym (ap (λ c. A.lt (A.lit 1 7) (if c then A.lit 0 0 else A.fmod a b)) close) ∙ more in
            let never : false ≡ true = sym G.zero_small ∙ zero_more in absurd cc
        | inr apart ↦
            let same = ap (λ c. if c then A.lit 0 0 else A.fmod a b) apart in
            let more' : A.lt (A.lit 1 7) (A.fmod a b) ≡ true =
              sym (ap (A.lt (A.lit 1 7)) same) ∙ more in
            let below = G.rank_lt (A.fmod a b) b (G.fmod_lt a b inside more') in
            omega (arith, below, ap G.rank same)
      ]

  gcd_loop-Returns : (n : ℕ) (a b : A.Real) → G.rank b ≤ n → Returns (gcd_loop A (suc n) a b)
  gcd_loop-Returns zero a b enough = elim (Bool-cases (A.lt (A.lit 1 7) b)) [
    | inr out ↦ (a, gcd_out zero a b out)
    | inl inside ↦ absurd (omega (arith, enough, G.rank_lt (A.lit 1 7) b inside))
  ]
  gcd_loop-Returns (suc n) a b enough = elim (Bool-cases (A.lt (A.lit 1 7) b)) [
    | inr out ↦ (a, gcd_out (suc n) a b out)
    | inl inside ↦
        let c = next_divisor a b in
        elim (Bool-cases (A.lt (A.lit 1 7) c)) [
          | inr out ↦ (b, gcd_in (suc n) a b inside ∙ gcd_out n b c out)
          | inl more ↦
              let (r, e) =
                gcd_loop-Returns n b c (omega (arith, enough, next_divisor-lt a b inside more)) in
              (r, gcd_in (suc n) a b inside ∙ e)
        ]
  ]

  gcd_double-Returns : (n : ℕ) (a b : A.Real) → G.top ≤ n → Returns (gcd_double A (suc n) a b)
  unfolding gcd_double
  gcd_double-Returns n a b long =
      gcd_loop-Returns n (A.abs a) (A.abs b) (omega (arith, long, G.rank_le (A.abs b)))

  calculate_period-Returns :
      (n : ℕ) (a b : A.Real) → G.top ≤ n → Returns (calculate_period A (suc n) a b)
  unfolding calculate_period
  calculate_period-Returns n a b long =
      let (g, e) = gcd_double-Returns n a b long in (period_of A g, rw (calculate_period, e) refl)

  pub closing-Returns : (n : ℕ) (q : Request A) → G.top ≤ n → Returns (closing A (suc n) q)
  unfolding closing period_of_two period_of_three calculate_period_of_three
  closing-Returns n (on_circle radius center_x center_y) long = (A.times (A.lit 2 0) A.pi, refl)
  closing-Returns n (in_xy x y) long = calculate_period-Returns n x.frequency y.frequency long
  closing-Returns n (in_yz y z x_offset) long =
      calculate_period-Returns n y.frequency z.frequency long
  closing-Returns n (in_space x y z) long =
      let (g, e) = gcd_double-Returns n y.frequency z.frequency long in
      let (period, e') = calculate_period-Returns n x.frequency g long in
      (period, rw (calculate_period_of_three, e) e')
