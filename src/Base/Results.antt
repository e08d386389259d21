-- ===== src/Base/Results.antt =====
-- Calls that may throw. What a call changed before it threw is part of the state it returns.
use mathlib.Core.Path.{◌≡◌, refl}

-- The exception types of the source.
pub data Error : Type 0 where
  invalid_argument out_of_range runtime_error : Error

pub data Result {ℓ} (A : Type ℓ) : Type ℓ where
  throws : Error → Result A
  ok : A → Result A

module _ {ℓ κ} {A : Type ℓ} {B : Type κ} where
  infixl 5 ◌>>=◌
  abbrev pub ◌>>=◌ : Result A → (A → Result B) → Result B
  throws e >>= next = throws e
  ok a >>= next = next a

  -- What returns has returned from both parts.
  pub >>=-eq-ok :
      (m : Result A) (next : A → Result B) {b : B}
      → (m >>= next) ≡ ok b
      → (a : A) × (m ≡ ok a) × (next a ≡ ok b)
  >>=-eq-ok (throws e) next h = cc
  >>=-eq-ok (ok a) next h = (a, refl, h)
