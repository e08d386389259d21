-- ===== src/Waypoints/Numbers.antt =====
-- What the ends of the loops of GzDRL/include/common/waypoint_generator.hh rely on.
use gz_drl.Base.{
  ℕ, ◌≤◌, ◌<◌, ◌≡◌, refl, true, false, Option, none, some, List, ◌∷◌, Result, ok, throws,
}
use gz_drl.Waypoints.{Arithmetic, epsilon}
use gz_drl.Waypoints.Loops.{then_points, prepend}

-- What is relied on of the numbers: there are finitely many that compare, a remainder is below the
-- divisor, 0 is small, and what is above a number from 0 on is one.
pub record Finite (A : Arithmetic) : Type 0 where
  pub top : ℕ
  pub rank : A.Real → ℕ
  pub rank_le : (a : A.Real) → rank a ≤ top
  pub rank_lt : (a b : A.Real) → A.lt a b ≡ true → rank a < rank b
  pub fmod_lt :
      (a b : A.Real)
      → A.lt (A.lit 1 7) b ≡ true
      → A.lt (A.lit 1 7) (A.fmod a b) ≡ true
      → A.lt (A.fmod a b) b ≡ true
  pub zero_small : A.lt (A.lit 1 7) (A.lit 0 0) ≡ false
  pub zero_from : A.le (A.lit 0 0) (A.lit 0 0) ≡ true
  pub above_from :
      (a b : A.Real) → A.le (A.lit 0 0) a ≡ true → A.lt a b ≡ true → A.le (A.lit 0 0) b ≡ true

-- From 0 on and below a bound numbers are finer than `epsilon`: adding more than it moves on.
pub record Fine (A : Arithmetic) (bound : A.Real) : Type 0 where
  pub moves :
      (p du : A.Real)
      → A.le (A.lit 0 0) p ≡ true
      → A.le du (epsilon A) ≡ false
      → A.lt p bound ≡ true
      → A.lt (A.plus p du) bound ≡ true
      → A.lt p (A.plus p du) ≡ true
  pub ahead :
      (u v : A.Real)
      → A.le (A.lit 0 0) u ≡ true
      → A.lt u bound ≡ true
      → A.lt v bound ≡ true
      → A.le v (A.plus u (epsilon A)) ≡ false
      → A.lt u v ≡ true

-- A computation that does not run out of rounds.
abbrev pub Returns : {B : Type 0} → Option B → Type 0
Returns {B} o = (b : B) × (o ≡ some b)

pub prepend-Returns :
    {P S : Type 0} (p : P) (o : Option (Result (List P) × S)) → Returns o → Returns (prepend p o)
prepend-Returns p none (r, e) = absurd cc
prepend-Returns p (some (throws x, s)) h = ((throws x, s), refl)
prepend-Returns p (some (ok ps, s)) h = ((ok (p ∷ ps), s), refl)

pub then_points-Returns :
    {P S : Type 0} (r : Result P) (s : S) (o : Option (Result (List P) × S))
    → Returns o
    → Returns (then_points r s o)
then_points-Returns (throws x) s o h = ((throws x, s), refl)
then_points-Returns (ok p) s o h = prepend-Returns p o h
