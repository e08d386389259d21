-- ===== src/Video/FileName/Search.antt =====
-- `std::string::find_last_of` for one character, and its laws.
use gz_drl.Base.{
  ℕ, zero, suc, ◌+◌, ◌<◌, ◌≡◌, refl, [], ◌∷◌, ◌++◌, Option, none, some, arith, Name, length, take,
  drop, nat_beq, if◌then◌else◌,
}

unfoldable pub find_last_of : ℕ → Name → Option ℕ
find_last_of c [] = none
find_last_of c (x ∷ s) = elim (find_last_of c s) [
  | some i ↦ some (suc i)
  | none ↦ if nat_beq x c then some 0 else none
]

pub find_last_of-append-some :
    (c : ℕ) (s t : Name) (i : ℕ)
    → find_last_of c t ≡ some i
    → find_last_of c (s ++ t) ≡ some (length s + i)
unfolding find_last_of
find_last_of-append-some c [] t i h = ground arith
find_last_of-append-some c (x ∷ s) t i h = ground (arith, find_last_of-append-some c s t i h)

pub find_last_of-append-none :
    (c : ℕ) (s t : Name) → find_last_of c t ≡ none → find_last_of c (s ++ t) ≡ find_last_of c s
unfolding find_last_of
find_last_of-append-none c [] t h = h
find_last_of-append-none c (x ∷ s) t h = ground (arith, find_last_of-append-none c s t h)

pub find_last_of_lt : (c : ℕ) (s : Name) (i : ℕ) → find_last_of c s ≡ some i → i < length s
unfolding find_last_of
find_last_of_lt c [] i h = ground arith
find_last_of_lt c (x ∷ s) zero h = omega arith
find_last_of_lt c (x ∷ s) (suc i) h = ground (arith, find_last_of_lt c s i)

-- Behind the last occurrence the character does not occur.
pub find_last_of-drop :
    (c : ℕ) (s : Name) (i : ℕ) → find_last_of c s ≡ some i → find_last_of c (drop (suc i) s) ≡ none
unfolding find_last_of
find_last_of-drop c [] i h = ground arith
find_last_of-drop c (x ∷ s) zero h = ground arith
find_last_of-drop c (x ∷ s) (suc i) h = ground (arith, find_last_of-drop c s i)

pub find_last_of-take-none :
    (c : ℕ) (s : Name) (n : ℕ) → find_last_of c s ≡ none → find_last_of c (take n s) ≡ none
unfolding find_last_of
find_last_of-take-none c s zero h = refl
find_last_of-take-none c [] (suc n) h = refl
find_last_of-take-none c (x ∷ s) (suc n) h = ground (arith, find_last_of-take-none c s n)

pub find_last_of-take-some :
    (c : ℕ) (s : Name) (n i : ℕ)
    → find_last_of c s ≡ some i
    → i < n
    → find_last_of c (take n s) ≡ some i
unfolding find_last_of
find_last_of-take-some c [] n i h lt = ground arith
find_last_of-take-some c (x ∷ s) zero i h lt = ground arith
find_last_of-take-some c (x ∷ s) (suc n) zero h lt = ground (arith, find_last_of-take-none c s n)
find_last_of-take-some c (x ∷ s) (suc n) (suc i) h lt =
    ground (arith, find_last_of-take-some c s n i)

-- Two characters do not stand at one place.
pub find_last_of-inj :
    (c d : ℕ) (s : Name) (i : ℕ) → find_last_of c s ≡ some i → find_last_of d s ≡ some i → c ≡ d
unfolding find_last_of
find_last_of-inj c d [] i h k = ground arith
find_last_of-inj c d (x ∷ s) zero h k = ground arith
find_last_of-inj c d (x ∷ s) (suc i) h k = ground (arith, find_last_of-inj c d s i)
