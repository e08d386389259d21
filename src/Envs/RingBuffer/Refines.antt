-- ===== src/Envs/RingBuffer/Refines.antt =====
-- A ring buffer as its clients see it: a queue of bounded length.
use mathlib.Core.List.{reverse}
use gz_drl.Base.{
  ℕ, zero, suc, ◌-◌, min, ◌≡◌, refl, sym, ap, ◌∙◌, inl, inr, Bool, true, false, Option, none, some,
  List, [], ◌∷◌, ◌++◌, arith, ltb, nat_beq, if◌then◌else◌, Bool-cases, length, drop, nat_eq,
  name_eq, invalid_argument, ok, throws, ◌>>=◌,
}
use gz_drl.Envs.RingBuffer.{
  RingBuffer, make, push_overwrite, push, pop, empty, full, peek_latest, peek_latest_reverse,
}
use gz_drl.Envs.RingBuffer.Contents.{contents, IsValid, length-contents}
use gz_drl.Envs.RingBuffer.Operations.{
  push_overwrite-IsValid, contents-push_overwrite, push_room, push_full, pop-empty, contents-empty,
  contents-room, pop-contents, peek_latest-contents, peek_latest_reverse-contents,
}

module _ {ℓ} (A : Type ℓ) where
  -- The calls of a client.
  pub data Op : Type ℓ where
    do_push_overwrite do_push : A → Op
    do_pop ask : Op
    do_peek do_peek_reverse : ℕ → Op

  -- What a call answers; `ask` stands for `size()`, `empty()` and `full()`.
  pub data Answer : Type ℓ where
    done : Answer
    pushed : Bool → Answer
    popped : Option A → Answer
    told : ℕ → Bool → Bool → Answer
    copied : ℕ × List A → Answer

module _ {ℓ} {A : Type ℓ} where
  unfoldable pub step : Op A → RingBuffer A → Answer A × RingBuffer A
  unfolding push_overwrite push pop empty full peek_latest peek_latest_reverse
  step (do_push_overwrite v) r = (done, push_overwrite v r)
  step (do_push v) r = let (b, r') = push v r in (pushed b, r')
  step do_pop r = let (o, r') = pop r in (popped o, r')
  step ask r = (told r.size (empty r) (full r), r)
  step (do_peek n) r = (copied (peek_latest n r), r)
  step (do_peek_reverse n) r = (copied (peek_latest_reverse n r), r)

  unfoldable pub answers : List (Op A) → RingBuffer A → List (Answer A)
  unfolding step
  answers [] r = []
  answers (op ∷ ops) r = let (a, r') = step op r in a ∷ answers ops r'

  -- The queue, the oldest element first, and the same calls on it.
  unfoldable pub queue_step : ℕ → Op A → List A → Answer A × List A
  queue_step capacity (do_push_overwrite v) xs =
      (done, if ltb (length xs) capacity then xs ++ v ∷ [] else drop 1 (xs ++ v ∷ []))
  queue_step capacity (do_push v) xs =
      if ltb (length xs) capacity then (pushed true, xs ++ v ∷ []) else (pushed false, xs)
  queue_step capacity do_pop [] = (popped none, [])
  queue_step capacity do_pop (x ∷ xs) = (popped (some x), xs)
  queue_step capacity ask xs =
      (told (length xs) (nat_beq (length xs) 0) (nat_beq (length xs) capacity), xs)
  queue_step capacity (do_peek n) xs =
      let count = min n (length xs) in (copied (count, drop (length xs - count) xs), xs)
  queue_step capacity (do_peek_reverse n) xs =
      let count = min n (length xs) in (copied (count, reverse (drop (length xs - count) xs)), xs)

  unfoldable pub queue_answers : ℕ → List (Op A) → List A → List (Answer A)
  unfolding queue_step
  queue_answers capacity [] xs = []
  queue_answers capacity (op ∷ ops) xs =
      let (a, xs') = queue_step capacity op xs in a ∷ queue_answers capacity ops xs'

  -- What a call leaves behind.
  record Kept (r r' : RingBuffer A) : Type 0 where
    valid : IsValid r'
    same_capacity : r'.capacity ≡ r.capacity

  -- One call, on the buffer and on the queue.
  Agrees : Op A → RingBuffer A → Type ℓ
  Agrees op r =
      (queue_step r.capacity op (contents r) ≡ ((step op r).0, contents ((step op r).1)))
      × Kept r ((step op r).1)

  overwrite-Kept : (v : A) (r : RingBuffer A) → IsValid r → Kept r (push_overwrite v r)
  unfolding push_overwrite
  overwrite-Kept v r valid = record {
    valid = push_overwrite-IsValid v r valid;
    same_capacity = refl;
  }

  push-Agrees : (v : A) (r : RingBuffer A) → IsValid r → Agrees (do_push v) r
  unfolding step queue_step Agrees
  push-Agrees v r valid = elim (Bool-cases (ltb r.size r.capacity)) [
    | inl room ↦
        rw (length-contents r, room, push_room v r (ground arith))
          (
            ap (λ xs. (pushed true, xs)) (sym (contents-room v r valid (ground arith))),
            overwrite-Kept v r valid,
          )
    | inr is_full ↦
        rw (length-contents r, is_full, push_full v r (ground arith))
          (refl, record { valid = valid; same_capacity = refl })
  ]

  pop-Agrees : (r : RingBuffer A) → IsValid r → Agrees do_pop r
  unfolding step queue_step Agrees
  pop-Agrees r valid = go r.size refl
    where
      go : (n : ℕ) → r.size ≡ n → Agrees do_pop r
      go zero e =
          rw (pop-empty r e, contents-empty r e)
            (refl, record { valid = valid; same_capacity = refl })
      go (suc n) e =
          let (x, r', pops, holds, valid', same) = pop-contents r n valid e in
          rw (pops, holds) (refl, record { valid = valid'; same_capacity = same })

  step-Agrees : (op : Op A) (r : RingBuffer A) → IsValid r → Agrees op r
  unfolding step queue_step Agrees empty full
  step-Agrees (do_push_overwrite v) r valid =
      (ap (λ xs. (done, xs)) (sym (contents-push_overwrite v r valid)), overwrite-Kept v r valid)
  step-Agrees (do_push v) r valid = push-Agrees v r valid
  step-Agrees do_pop r valid = pop-Agrees r valid
  step-Agrees ask r valid = (rw (length-contents r), record { valid = valid; same_capacity = refl })
  step-Agrees (do_peek n) r valid = (
    rw (length-contents r, peek_latest-contents n r valid),
    record { valid = valid; same_capacity = refl },
  )
  step-Agrees (do_peek_reverse n) r valid = (
    rw (length-contents r, peek_latest_reverse-contents n r valid),
    record { valid = valid; same_capacity = refl },
  )

  answers-contents :
      (ops : List (Op A)) (r : RingBuffer A) (capacity : ℕ)
      → IsValid r
      → r.capacity ≡ capacity
      → answers ops r ≡ queue_answers capacity ops (contents r)
  unfolding answers queue_answers Agrees
  answers-contents [] r capacity valid e = refl
  answers-contents (op ∷ ops) r capacity valid e =
      let (agrees, kept) = step-Agrees op r valid in
      let later =
        answers-contents ops ((step op r).1) capacity kept.valid (kept.same_capacity ∙ e) in
      ap (λ rest. (step op r).0 ∷ rest) later
      ∙ ap (λ (p : Answer A × List A). p.0 ∷ queue_answers capacity ops p.1)
          (sym (ap (λ c. queue_step c op (contents r)) (sym e) ∙ agrees))

  -- Whatever its client calls, a new ring buffer answers like a queue that keeps at most `capacity`
  -- elements: the oldest comes out first, a full one turns `push` down and drops its oldest element
  -- for `push_overwrite`, and peeking copies the latest elements. A capacity of 0 is refused.
  pub answers-make :
      (blank : A) (capacity : ℕ) (ops : List (Op A))
      → (make blank capacity >>= λ r. ok (answers ops r)) ≡ (
          if nat_beq capacity 0
          then throws invalid_argument
          else ok (queue_answers capacity ops []))
  unfolding make
  answers-make blank capacity ops = elim (Bool-cases (nat_beq capacity 0)) [
    | inl nothing ↦ rw nothing
    | inr something ↦
        let r : RingBuffer A = record {
          capacity = capacity;
          buffer = λ i. blank;
          write_idx = 0;
          size = 0;
        } in
        let valid : IsValid r = record { write_below = ground arith; size_below = omega arith } in
        rw something (
          ap ok (
            answers-contents ops r capacity valid refl
            ∙ ap (queue_answers capacity ops) (contents-empty r refl)))
  ]
