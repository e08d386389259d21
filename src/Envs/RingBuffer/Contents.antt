-- ===== src/Envs/RingBuffer/Contents.antt =====
-- What a ring buffer holds, the oldest first, and what its operations do to that.
use mathlib.Core.List.{reverse, reverse-append}
use native.Mathlib.Nat.{mod-eq_of_lt, mod-eq-sub-mod}
use gz_drl.Base.{
  ℕ, zero, suc, ◌+◌, ◌-◌, ◌%◌, ◌≤◌, ◌<◌, ◌≡◌, refl, sym, ap, ap₂, ◌∙◌, ◌≢◌, ◌⊎◌, inl, inr, List, [],
  ◌∷◌, ◌++◌, arith, ltb, nat_beq_iff, Bool-cases, length, drop, write, nat_eq, name_eq,
}
use gz_drl.Envs.RingBuffer.{RingBuffer, copy_from, copy_back}

-- A remainder of a number below twice the divisor.
pub wrap-cases : (c x : ℕ) → x < c + c → ((x < c) × (x % c ≡ x)) ⊎ ((c ≤ x) × (x % c ≡ x - c))
wrap-cases c x h = elim (Bool-cases (ltb x c)) [
  | inl below ↦ let x_lt_c : x < c = ground arith in inl (x_lt_c, mod-eq_of_lt x_lt_c)
  | inr above ↦
      let c_le_x : c ≤ x = ground arith in
      let small : x - c < c = omega arith in
      inr (c_le_x, mod-eq-sub-mod c_le_x ∙ mod-eq_of_lt small)
]

module _ {ℓ} {A : Type ℓ} where
  pub slot-eq : (f : ℕ → A) (c : ℕ) {x y : ℕ} → x ≡ y → f (x % c) ≡ f (y % c)
  slot-eq f c e = ap (λ x. f (x % c)) e

  pub copy_from-ext :
      (f g : ℕ → A) (c s t i j n : ℕ)
      → ((k : ℕ) → k < n → f ((s + (i + k)) % c) ≡ g ((t + (j + k)) % c))
      → copy_from f c s i n ≡ copy_from g c t j n
  unfolding copy_from
  copy_from-ext f g c s t i j zero h = refl
  copy_from-ext f g c s t i j (suc n) h =
      ap₂ ◌∷◌ (slot-eq f c (omega arith) ∙ h 0 (omega arith) ∙ slot-eq g c (omega arith)) (
        copy_from-ext f g c s t (suc i) (suc j) n (λ k k_lt_n.
          slot-eq f c (omega arith) ∙ h (suc k) (omega arith) ∙ slot-eq g c (omega arith)))

  copy_from-suc :
      (f : ℕ → A) (c s i n : ℕ)
      → copy_from f c s i (suc n) ≡ copy_from f c s i n ++ f ((s + (i + n)) % c) ∷ []
  unfolding copy_from
  copy_from-suc f c s i zero = ap₂ ◌∷◌ (slot-eq f c (omega arith)) refl
  copy_from-suc f c s i (suc n) =
      ap (λ l. f ((s + i) % c) ∷ l)
        (copy_from-suc f c s (suc i) n
          ∙ ap (λ x. copy_from f c s (suc i) n ++ x ∷ []) (slot-eq f c (omega arith)))

  pub drop-copy_from :
      (f : ℕ → A) (c s i k n : ℕ)
      → k ≤ n
      → drop k (copy_from f c s i n) ≡ copy_from f c s (i + k) (n - k)
  unfolding copy_from
  drop-copy_from f c s i zero n h = ap₂ (λ j m. copy_from f c s j m) (omega arith) (omega arith)
  drop-copy_from f c s i (suc k) zero h = absurd (omega arith)
  drop-copy_from f c s i (suc k) (suc n) h =
      drop-copy_from f c s (suc i) k n (omega arith)
      ∙ ap₂ (λ j m. copy_from f c s j m) (omega arith) (omega arith)

  pub length-copy_from : (f : ℕ → A) (c s i n : ℕ) → length (copy_from f c s i n) ≡ n
  unfolding copy_from
  length-copy_from f c s i zero = refl
  length-copy_from f c s i (suc n) = ap suc (length-copy_from f c s (suc i) n)

  pub copy_back-reverse :
      (f : ℕ → A) (c w i n : ℕ)
      → i + n ≤ c
      → copy_back f c w i n ≡ reverse (copy_from f c (w + c - i - n) 0 n)
  unfolding copy_from copy_back
  copy_back-reverse f c w i zero h = refl
  copy_back-reverse f c w i (suc n) h =
      let t = w + c - i - suc n in
      let latest = f ((t + (0 + n)) % c) in
      ap₂ ◌∷◌ (slot-eq f c (omega arith)) (
        copy_back-reverse f c w (suc i) n (omega arith)
        ∙ ap (λ x. reverse (copy_from f c x 0 n)) (omega arith))
      ∙ sym (reverse-append (copy_from f c t 0 n) (latest ∷ []))
      ∙ ap reverse (sym (copy_from-suc f c t 0 n))

  -- What the buffer holds, the oldest first.
  unfoldable pub contents : RingBuffer A → List A
  unfolding copy_from
  contents r = copy_from r.buffer r.capacity (r.write_idx + r.capacity - r.size) 0 r.size

  -- The indices are in range.
  pub record IsValid (r : RingBuffer A) : Type 0 where
    pub write_below : r.write_idx < r.capacity
    pub size_below : r.size ≤ r.capacity

  pub length-contents : (r : RingBuffer A) → length (contents r) ≡ r.size
  unfolding contents
  length-contents r = length-copy_from r.buffer r.capacity _ 0 r.size

  -- Behind the index that was written stands what stood there, up to the index itself.
  written :
      (f : ℕ → A) (c w : ℕ) (v : A) (x y : ℕ)
      → x % c ≡ y % c
      → w ≢ y % c
      → write f w v (x % c) ≡ f (y % c)
  written f c w v x y same other = ap (write f w v) same ∙ ground (arith, nat_beq_iff w (y % c))

  -- The slots that are read after a write are those that were read before it, and the new one.
  moved_slot :
      (f : ℕ → A) (c w n k : ℕ) (v : A)
      → w < c
      → n < c
      → k < n
      → write f w v (((w + 1) % c + c - suc n + (0 + k)) % c) ≡ f ((w + c - n + (0 + k)) % c)
  moved_slot f c w n k v w_lt_c n_lt_c k_lt_n =
      let next = wrap-cases c (w + 1) (omega arith) in
      let small : (w + 1) % c < c = elim next [ inl e ↦ omega arith | inr e ↦ omega arith ] in
      let before = wrap-cases c ((w + 1) % c + c - suc n + (0 + k)) (omega arith) in
      let after = wrap-cases c (w + c - n + (0 + k)) (omega arith) in
      written f c w v _ (w + c - n + (0 + k)) (ground arith) (ground arith)

  last_slot :
      (f : ℕ → A) (c w n : ℕ) (v : A)
      → w < c
      → n < c
      → write f w v (((w + 1) % c + c - suc n + (0 + n)) % c) ≡ v
  last_slot f c w n v w_lt_c n_lt_c =
      let next = wrap-cases c (w + 1) (omega arith) in
      let small : (w + 1) % c < c = elim next [ inl e ↦ omega arith | inr e ↦ omega arith ] in
      let last = wrap-cases c ((w + 1) % c + c - suc n + (0 + n)) (omega arith) in
      let same : ((w + 1) % c + c - suc n + (0 + n)) % c ≡ w = ground arith in
      ap (write f w v) same ∙ ground (arith, nat_beq_iff w w)

  pub append_slot :
      (f : ℕ → A) (c w n : ℕ) (v : A)
      → w < c
      → n < c
      → copy_from (write f w v) c ((w + 1) % c + c - suc n) 0 (suc n)
        ≡ copy_from f c (w + c - n) 0 n ++ v ∷ []
  append_slot f c w n v w_lt_c n_lt_c =
      copy_from-suc (write f w v) c ((w + 1) % c + c - suc n) 0 n
      ∙ ap₂ (λ l x. l ++ x ∷ [])
          (copy_from-ext (write f w v) f c _ _ 0 0 n
            (λ k k_lt_n. moved_slot f c w n k v w_lt_c n_lt_c k_lt_n))
          (last_slot f c w n v w_lt_c n_lt_c)
