-- ===== src/Envs/RingBuffer/Operations.antt =====
-- The operations of a ring buffer, by what they do to its contents.
use mathlib.Core.List.{reverse}
use native.Mathlib.Nat.{mod-add-mod, mod-mod, mod-lt}
use gz_drl.Base.{
  ℕ, zero, suc, ◌+◌, ◌-◌, ◌%◌, ◌≤◌, ◌<◌, min, ◌≡◌, refl, sym, ap, ap₂, ◌∙◌, inl, inr, true, false,
  ◌||◌, none, some, [], ◌∷◌, ◌++◌, arith, ltb, leb, nat_beq, if◌then◌else◌, Bool-cases, length,
  drop, write, nat_eq, name_eq,
}
use gz_drl.Envs.RingBuffer.{
  RingBuffer, push_overwrite, push, pop, copy_from, peek_latest, copy_back, peek_latest_reverse,
}
use gz_drl.Envs.RingBuffer.Contents.{
  slot-eq, copy_from-ext, drop-copy_from, copy_back-reverse, append_slot, contents, IsValid,
  length-contents,
}

module _ {ℓ} {A : Type ℓ} where
  pub push_overwrite-IsValid : (v : A) (r : RingBuffer A) → IsValid r → IsValid (push_overwrite v r)
  unfolding push_overwrite
  push_overwrite-IsValid v r valid = record {
    write_below = mod-lt (r.write_idx + 1) (omega (arith, valid.write_below));
    size_below = ground (arith, valid.size_below);
  }

  pub push_room :
      (v : A) (r : RingBuffer A) → r.size < r.capacity → push v r ≡ (true, push_overwrite v r)
  unfolding push push_overwrite
  push_room v r room =
      let not_full : leb r.capacity r.size ≡ false = ground arith in
      let below : ltb r.size r.capacity ≡ true = ground arith in rw (not_full, below)

  pub push_full : (v : A) (r : RingBuffer A) → r.capacity ≤ r.size → push v r ≡ (false, r)
  unfolding push
  push_full v r is_full = let full : leb r.capacity r.size ≡ true = ground arith in rw full

  pub contents-room :
      (v : A) (r : RingBuffer A)
      → IsValid r
      → r.size < r.capacity
      → contents (push_overwrite v r) ≡ contents r ++ v ∷ []
  unfolding contents push_overwrite
  contents-room v r valid room =
      let below : ltb r.size r.capacity ≡ true = ground arith in
      rw below (append_slot r.buffer r.capacity r.write_idx r.size v valid.write_below room)

  full_window :
      (f : ℕ → A) (c w : ℕ) (v : A)
      → w < c
      → copy_from (write f w v) c ((w + 1) % c + c - c) 0 c
        ≡ drop 1 (copy_from f c (w + c - c) 0 c ++ v ∷ [])
  unfolding copy_from
  full_window f zero w v h = absurd (omega arith)
  full_window f (suc m) w v h =
      append_slot f (suc m) w m v h (omega arith)
      ∙ ap (λ l. l ++ v ∷ [])
          (copy_from-ext f f (suc m) _ _ 0 1 m (λ k k_lt_m. slot-eq f (suc m) (omega arith)))

  contents-full :
      (v : A) (r : RingBuffer A)
      → IsValid r
      → r.size ≡ r.capacity
      → contents (push_overwrite v r) ≡ drop 1 (contents r ++ v ∷ [])
  unfolding contents push_overwrite
  contents-full v r valid is_full =
      let below : ltb r.size r.capacity ≡ false = ground arith in
      rw (below, is_full) (full_window r.buffer r.capacity r.write_idx v valid.write_below)

  -- A push appends, and where the buffer is full the oldest element goes.
  pub contents-push_overwrite :
      (v : A) (r : RingBuffer A)
      → IsValid r
      → contents (push_overwrite v r) ≡ (
          if ltb (length (contents r)) r.capacity
          then contents r ++ v ∷ []
          else drop 1 (contents r ++ v ∷ []))
  contents-push_overwrite v r valid = elim (Bool-cases (ltb r.size r.capacity)) [
    | inl room ↦ rw (length-contents r, room) (contents-room v r valid (ground arith))
    | inr is_full ↦
        rw (length-contents r, is_full) (contents-full v r valid (ground (arith, valid.size_below)))
  ]

  pub contents-empty : (r : RingBuffer A) → r.size ≡ 0 → contents r ≡ []
  unfolding contents copy_from
  contents-empty r none_left = rw none_left

  pub pop-empty : (r : RingBuffer A) → r.size ≡ 0 → pop r ≡ (none, r)
  unfolding pop
  pop-empty r none_left = let is_zero : nat_beq r.size 0 ≡ true = ground arith in rw is_zero

  popped_window :
      (f : ℕ → A) (c w n : ℕ)
      → suc n ≤ c
      → copy_from f c (w + c - suc n) 0 (suc n)
        ≡ f ((w + c - suc n) % c) ∷ copy_from f c (w + c - n) 0 n
  unfolding copy_from
  popped_window f c w n h =
      ap₂ ◌∷◌ (slot-eq f c (omega arith))
        (copy_from-ext f f c _ _ 1 0 n (λ k k_lt_n. slot-eq f c (omega arith)))

  -- `pop` takes the oldest element.
  pub pop-contents :
      (r : RingBuffer A) (n : ℕ)
      → IsValid r
      → r.size ≡ suc n
      → (x : A) × (r' : RingBuffer A) × (pop r ≡ (some x, r'))
        × (contents r ≡ x ∷ contents r')
        × IsValid r'
        × (r'.capacity ≡ r.capacity)
  unfolding contents pop
  pop-contents r n valid e =
      let some_left : nat_beq r.size 0 ≡ false = ground arith in
      let front = r.buffer ((r.write_idx + r.capacity - suc n) % r.capacity) in
      (
        front,
        record r { size = n },
        rw (some_left, e) (ap (λ m. (some front, record r { size = m })) (omega arith)),
        rw e (popped_window r.buffer r.capacity r.write_idx n (omega (arith, valid.size_below))),
        record { write_below = valid.write_below; size_below = omega (arith, valid.size_below) },
        refl,
      )

  last_window :
      (f : ℕ → A) (c t w n count : ℕ)
      → count ≤ n
      → n ≤ c
      → t % c ≡ (w + c - count) % c
      → copy_from f c t 0 count ≡ drop (n - count) (copy_from f c (w + c - n) 0 n)
  last_window f c t w n count h h' e =
      copy_from-ext f f c t (w + c - n) 0 (n - count) count
        (λ k k_lt. ap f (start k) ∙ slot-eq f c (omega arith))
      ∙ ap₂ (λ j m. copy_from f c (w + c - n) j m) (omega arith) (omega arith)
      ∙ sym (drop-copy_from f c (w + c - n) 0 (n - count) n (omega arith))
    where
      start : (k : ℕ) → (t + (0 + k)) % c ≡ (w + c - count + (0 + k)) % c
      start k =
          sym (mod-add-mod t c (0 + k))
          ∙ ap (λ x. (x + (0 + k)) % c) e
          ∙ mod-add-mod (w + c - count) c (0 + k)

  -- `peek_latest` copies the last elements.
  pub peek_latest-contents :
      (n : ℕ) (r : RingBuffer A)
      → IsValid r
      → peek_latest n r ≡ (min n r.size, drop (r.size - min n r.size) (contents r))
  unfolding contents peek_latest
  peek_latest-contents n r valid =
      let c = r.capacity in
      let w = r.write_idx in
      let start = λ (count : ℕ). (w + c - r.size + (r.size - count)) % c in
      let copied = λ (count : ℕ) (h : count ≤ r.size).
        last_window r.buffer c (start count) w r.size count h valid.size_below
          (mod-mod _ c ∙ ap (λ x. x % c) (omega (arith, valid.size_below))) in
      elim (Bool-cases (nat_beq r.size 0 || nat_beq n 0)) [
        | inl nothing ↦
            let is_zero : min n r.size ≡ 0 = ground arith in
            rw (nothing, is_zero) (ap (λ l. (0, l)) (copied 0 (omega arith)))
        | inr something ↦
            rw something (ap (λ l. (min n r.size, l)) (copied (min n r.size) (omega arith)))
      ]

  -- `peek_latest_reverse` copies them in the opposite order.
  pub peek_latest_reverse-contents :
      (n : ℕ) (r : RingBuffer A)
      → IsValid r
      → peek_latest_reverse n r
        ≡ (min n r.size, reverse (drop (r.size - min n r.size) (contents r)))
  unfolding contents peek_latest_reverse copy_back
  peek_latest_reverse-contents n r valid =
      let c = r.capacity in
      let w = r.write_idx in
      let copied = λ (count : ℕ) (h : count ≤ r.size).
        copy_back-reverse r.buffer c w 0 count (omega (arith, valid.size_below))
        ∙ ap reverse (
            last_window r.buffer c (w + c - 0 - count) w r.size count h valid.size_below
              (ap (λ x. x % c) (omega arith))) in
      elim (Bool-cases (nat_beq r.size 0 || nat_beq n 0)) [
        | inl nothing ↦
            let is_zero : min n r.size ≡ 0 = ground arith in
            rw (nothing, is_zero) (ap (λ l. (0, l)) (copied 0 (omega arith)))
        | inr something ↦
            rw something (ap (λ l. (min n r.size, l)) (copied (min n r.size) (omega arith)))
      ]
