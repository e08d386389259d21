-- ===== src/Envs/Image/Loops.antt =====
-- Loops that fill a buffer from its start, of `ToRGB8_HWC` and `ResizeNearestRGB888` in
-- envs/common_utils.hh.
use gz_drl.Base.{
  ℕ, zero, suc, ◌+◌, ◌*◌, ◌≤◌, ◌<◌, ◌≡◌, refl, ap, subst, ◌∙◌, ◌⊎◌, inl, inr, Option, some, List,
  [], ◌∷◌, arith, ltb, nat_beq, if◌then◌else◌, nat_beq_iff, Bool-cases, length, get_elem?,
  get_elem?-some, set, nat_eq, name_eq, both_eq,
}
use native.Mathlib.Nat.{mul-le-mul_right}
use gz_drl.Envs.Image.{on_some, repeat, copy_byte}

-- A loop keeps an invariant that its body moves on by one, and has a result if the body has.
pub repeat-induct {ℓ} :
    {A : Type 0} (Inv : ℕ → A → Type ℓ) (body : ℕ → A → Option A) (n : ℕ) (a : A)
    → Inv 0 a
    → ((k : ℕ) (b : A) → k < n → Inv k b → (c : A) × (body k b ≡ some c) × Inv (suc k) c)
    → (c : A) × (repeat n body a ≡ some c) × Inv n c
unfolding repeat
repeat-induct Inv body zero a start step = (a, refl, start)
repeat-induct Inv body (suc n) a start step =
    let (b, runs, inv) = repeat-induct Inv body n a start (λ k b h. step k b (omega arith)) in
    let (c, moved, next) = step n b (omega arith) inv in
    (c, ap (λ o. on_some o (body n)) runs ∙ moved, next)

rows_between : (w y y' : ℕ) → y < y' → y * w + w ≤ y' * w
rows_between w y y' h = omega (arith, mul-le-mul_right w h)

order-cases : (a b : ℕ) → (a ≡ b) ⊎ ((a < b) ⊎ (b < a))
order-cases a b = elim (Bool-cases (nat_beq a b)) [
  | inl e ↦ inl ((nat_beq_iff a b).0 e)
  | inr e ↦ elim (Bool-cases (ltb a b)) [
    | inl l ↦ inr (inl (ground arith))
    | inr g ↦ inr (inr (ground arith))
  ]
]

-- Pixels of one place are one pixel.
pub rows_apart : (w y y' x x' : ℕ) → x < w → x' < w → y * w + x ≡ y' * w + x' → (y ≡ y') × (x ≡ x')
rows_apart w y y' x x' h h' e = elim (order-cases y y') [
  | inl same ↦ (same, omega (arith, ap (λ i. i * w) same))
  | inr (inl before) ↦ omega (arith, rows_between w y y' before)
  | inr (inr behind) ↦ omega (arith, rows_between w y' y behind)
]

-- What is written is there, and the rest is left.
get_elem?-set :
    (b : List ℕ) (i j v : ℕ)
    → i < length b
    → get_elem? (set b i v) j ≡ (if nat_beq i j then some v else get_elem? b j)
get_elem?-set [] i j v h = ground arith
get_elem?-set (x ∷ b) zero zero v h = refl
get_elem?-set (x ∷ b) zero (suc j) v h = ground arith
get_elem?-set (x ∷ b) (suc i) zero v h = ground arith
get_elem?-set (x ∷ b) (suc i) (suc j) v h = ground (arith, get_elem?-set b i j v)

length-set : (b : List ℕ) (i v : ℕ) → length (set b i v) ≡ length b
length-set [] i v = refl
length-set (x ∷ b) zero v = refl
length-set (x ∷ b) (suc i) v = ap suc (length-set b i v)

-- The byte `c` of the pixel in row `y` and column `x` of an image of width `w` in the layout that the
-- functions write.
abbrev pub at : ℕ → ℕ → ℕ → ℕ → ℕ
at w y x c = y * w * 3 + (x * 3 + c)

module _ (src : List ℕ) (w : ℕ) (from : ℕ → ℕ → ℕ → ℕ) (size : ℕ) where
  -- The first `s` bytes are written: each is the byte of the source that `from` gives for its pixel.
  pub record Filled (s : ℕ) (b : List ℕ) : Type 0 where
    pub same_length : length b ≡ size
    pub bytes :
        (y x c : ℕ)
        → x < w
        → c < 3
        → at w y x c < s
        → get_elem? b (at w y x c) ≡ get_elem? src (from y x c)

  pub copy_byte-Filled :
      (s j : ℕ) (b : List ℕ)
      → s < size
      → j < length src
      → ((y x c : ℕ) → x < w → c < 3 → at w y x c ≡ s → from y x c ≡ j)
      → Filled s b
      → (b' : List ℕ) × (copy_byte src s j b ≡ some b') × Filled (suc s) b'
  unfolding copy_byte
  copy_byte-Filled s j b room inside here f =
      let (v, read) = get_elem?-some src j inside in
      (
        set b s v,
        rw (copy_byte, read) (ground (arith, f.same_length)),
        record {
          same_length = length-set b s v ∙ f.same_length;
          bytes = λ y x c hx hc h.
              get_elem?-set b s (at w y x c) v (omega (arith, f.same_length))
              ∙ ground
                  (arith, here y x c hx hc, f.bytes y x c hx hc, nat_beq_iff s (at w y x c), read);
        },
      )

pub at_unique :
    (w y y' x x' c c' : ℕ)
    → x < w
    → x' < w
    → c < 3
    → c' < 3
    → at w y x c ≡ at w y' x' c'
    → (y ≡ y') × (x ≡ x') × (c ≡ c')
at_unique w y y' x x' c c' hx hx' hc hc' e =
    let (ey, ex) = rows_apart w y y' x x' hx hx' (omega arith) in
    let same_c : c ≡ c' = omega (arith, ap (λ i. i * w) ey) in (ey, ex, same_c)

module _ (src : List ℕ) (w : ℕ) (from : ℕ → ℕ → ℕ → ℕ) (size : ℕ) where
  byte-Filled :
      (y x c i j : ℕ) (b : List ℕ)
      → x < w
      → c < 3
      → at w y x c < size
      → from y x c < length src
      → i ≡ at w y x c
      → j ≡ from y x c
      → Filled src w from size (at w y x c) b
      → (b' : List ℕ) × (copy_byte src i j b ≡ some b')
        × Filled src w from size (suc (at w y x c)) b'
  byte-Filled y x c i j b hx hc room inside ei ej f =
      let (b', runs, f') =
        copy_byte-Filled src w from size (at w y x c) (from y x c) b room inside
          (λ y' x' c' hx' hc' e.
            let (ey, ex, ec) = at_unique w y' y x' x c' c hx' hx hc' hc e in rw (ey, ex, ec) refl)
          f in
      (b', rw (ei, ej) runs, f')

  -- The three bytes of a pixel.
  pub pixel-Filled :
      (y x i0 i1 i2 j0 j1 j2 : ℕ) (b : List ℕ)
      → x < w
      → at w y x 2 < size
      → ((c : ℕ) → c < 3 → from y x c < length src)
      → (i0 ≡ at w y x 0) × (i1 ≡ at w y x 1) × (i2 ≡ at w y x 2)
      → (j0 ≡ from y x 0) × (j1 ≡ from y x 1) × (j2 ≡ from y x 2)
      → Filled src w from size (y * w * 3 + x * 3) b
      → (b' : List ℕ) × (on_some
            (copy_byte src i0 j0 b)
            (λ b1. on_some (copy_byte src i1 j1 b1) (λ b2. copy_byte src i2 j2 b2))
          ≡ some b')
        × Filled src w from size (y * w * 3 + suc x * 3) b'
  pixel-Filled y x i0 i1 i2 j0 j1 j2 b hx room inside (e0, e1, e2) (k0, k1, k2) f =
      let Fill = λ (s : ℕ). Filled src w from size s in
      let (b1, r1, f1) =
        byte-Filled y x 0 i0 j0 b hx (omega arith) (omega arith) (inside 0 (omega arith)) e0 k0
          (subst (λ s. Filled src w from size s b) (omega arith) f) in
      let (b2, r2, f2) =
        byte-Filled y x 1 i1 j1 b1 hx (omega arith) (omega arith) (inside 1 (omega arith)) e1 k1
          (subst (λ s. Filled src w from size s b1) (omega arith) f1) in
      let (b3, r3, f3) =
        byte-Filled y x 2 i2 j2 b2 hx (omega arith) room (inside 2 (omega arith)) e2 k2
          (subst (λ s. Filled src w from size s b2) (omega arith) f2) in
      (b3, rw (r1, r2) r3, subst (λ s. Filled src w from size s b3) (omega arith) f3)

  pub start-Filled : (b : List ℕ) → length b ≡ size → Filled src w from size 0 b
  start-Filled b e = record { same_length = e; bytes = λ y x c hx hc h. ground arith }

  -- The loop over the rows and the columns, by its body.
  pub rows-Filled :
      (h : ℕ) (body : ℕ → ℕ → List ℕ → Option (List ℕ)) (b : List ℕ)
      → ((y x : ℕ) (b : List ℕ)
          → y < h
          → x < w
          → Filled src w from size (y * w * 3 + x * 3) b
          → (b' : List ℕ) × (body y x b ≡ some b')
            × Filled src w from size (y * w * 3 + suc x * 3) b')
      → Filled src w from size 0 b
      → (b' : List ℕ) × (repeat h (λ y. repeat w (body y)) b ≡ some b')
        × Filled src w from size (h * w * 3) b'
  rows-Filled h body b step start =
      repeat-induct (λ y b. Filled src w from size (y * w * 3) b) (λ y. repeat w (body y)) h b
        (subst (λ s. Filled src w from size s b) (omega arith) start)
        (λ y b y_in f.
          let (b', runs, f') =
            repeat-induct (λ x b. Filled src w from size (y * w * 3 + x * 3) b) (body y) w b
              (subst (λ s. Filled src w from size s b) (omega arith) f)
              (λ x b x_in g. step y x b y_in x_in g) in
          (b', runs, subst (λ s. Filled src w from size s b') (omega arith) f'))

-- The last byte of a pixel inside the image lies inside its buffer.
pub at-lt : (w h y x : ℕ) → y < h → x < w → at w y x 2 < h * w * 3
at-lt w h y x hy hx = omega (arith, rows_between w y h hy)
