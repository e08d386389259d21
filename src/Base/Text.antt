-- ===== src/Base/Text.antt =====
-- Names, paths and file names as lists of bytes, and the interface of an equality test.
use Prim.Native.Nat.{ℕ}
use Prim.Native.Char.{code}
use Prim.Native.String.{String}
use mathlib.Core.Path.{◌≡◌}
use mathlib.Core.Logic.{◌↔◌}
use mathlib.Core.Bool.{Bool, true, false, ◌&&◌}
use mathlib.Core.List.{List, [], ◌∷◌}
use native.Mathlib.Omega.{arith}
use gz_drl.Base.Tests.{nat_beq, nat_beq_iff}

-- A `std::string`.
abbrev pub Name : Type 0
Name = List ℕ

-- The code points of a literal, which are its bytes where the text is ASCII.
abbrev pub codes : String → Name
codes String.[] = []
codes (String.◌∷◌ c s) = code c ∷ codes s

abbrev pub name_beq : Name → Name → Bool
name_beq [] [] = true
name_beq [] (y ∷ ys) = false
name_beq (x ∷ xs) [] = false
name_beq (x ∷ xs) (y ∷ ys) = nat_beq x y && name_beq xs ys

pub name_beq_iff : (a b : Name) → (name_beq a b ≡ true) ↔ (a ≡ b)
name_beq_iff [] [] = ground arith
name_beq_iff [] (y ∷ ys) = ground arith
name_beq_iff (x ∷ xs) [] = ground arith
name_beq_iff (x ∷ xs) (y ∷ ys) = ground (arith, name_beq_iff xs ys)

-- The empty string, `s.empty()`.
abbrev pub is_empty : Name → Bool
is_empty [] = true
is_empty (c ∷ s) = false

pub record HasEq {κ} (K : Type κ) : Type κ where
  pub test : K → K → Bool
  pub test_iff : (j k : K) → (test j k ≡ true) ↔ (j ≡ k)

module _ {κ} {K : Type κ} ⦃h : HasEq K⦄ where
  infix 50 ◌==◌
  abbrev pub ◌==◌ : K → K → Bool
  j == k = h.test j k

instance abbrev pub name_eq : HasEq Name
name_eq = record { test = name_beq; test_iff = name_beq_iff }

instance abbrev pub nat_eq : HasEq ℕ
nat_eq = record { test = nat_beq; test_iff = nat_beq_iff }

-- Pairs of keys, as `PairEq` compares them.
module _ {κ ν} {J : Type κ} {K : Type ν} ⦃f : HasEq J⦄ ⦃g : HasEq K⦄ where
  abbrev pub both_equal : J × K → J × K → Bool
  both_equal p q = f.test p.0 q.0 && g.test p.1 q.1

  pub both_equal_iff : (p q : J × K) → (both_equal p q ≡ true) ↔ (p ≡ q)
  both_equal_iff (a, b) (c, d) = ground (arith, f.test_iff a c, g.test_iff b d)

  instance abbrev pub both_eq : HasEq (J × K)
  both_eq = record { test = both_equal; test_iff = both_equal_iff }
