-- ===== src/Envs/Hover/Memory.antt =====
-- What `HoverProcessor` of envs/processors/hover_processor.hh remembers in an episode.
use gz_drl.Base.{
  ℕ, zero, suc, ◌+◌, ◌*◌, ◌≤◌, ◌<◌, ◌≡◌, refl, sym, ap, subst, ◌∙◌, inl, inr, List, [], ◌∷◌, ◌++◌,
  map, arith, ltb, Bool-cases, length, take, drop, length-append, nat_eq, name_eq, both_eq,
}
use gz_drl.Envs.Hover.{
  Processing, pop_back, fill, push_front, push_action, push_actions, Hover, reset, process_action,
  process_actions, process_observation,
}

-- An action as the history has it.
abbrev pub remembered : (P : Processing) → List P.Float → List P.Float
remembered P a = map P.shown (map P.rotor_velocity a)

-- Behind one action after another, the newest comes first.
abbrev pub newest_first : {A : Type 0} → List (List A) → List A → List A
newest_first [] older = older
newest_first (xs ∷ later) older = newest_first later (xs ++ older)

module _ {A : Type 0} where
  pop_back-take :
      (n : ℕ) (x : A) (xs : List A)
      → length (take n xs) ≡ n
      → pop_back (x ∷ take n xs) ≡ take n (x ∷ xs)
  unfolding pop_back
  pop_back-take zero x xs h = refl
  pop_back-take (suc n) x [] h = ground (arith, h)
  pop_back-take (suc n) x (y ∷ xs) h = ap (λ l. x ∷ l) (pop_back-take n y xs (omega (arith, h)))

  take-short : (n : ℕ) (xs : List A) → length (take n xs) < n → take n xs ≡ xs
  take-short zero xs h = ground (arith, h)
  take-short (suc n) [] h = refl
  take-short (suc n) (x ∷ xs) h = ap (λ l. x ∷ l) (take-short n xs (omega (arith, h)))

  length-take-le : (n : ℕ) (xs : List A) → length (take n xs) ≤ n
  length-take-le zero xs = omega arith
  length-take-le (suc n) [] = omega arith
  length-take-le (suc n) (x ∷ xs) = omega (arith, length-take-le n xs)

  take-nil : (n : ℕ) → take {A = A} n [] ≡ []
  take-nil zero = refl
  take-nil (suc n) = refl

  -- A list with room for one more.
  take-roomy : (n : ℕ) (x : A) (xs : List A) → length xs < n → take n (x ∷ xs) ≡ x ∷ xs
  take-roomy zero x xs h = ground (arith, h)
  take-roomy (suc n) x [] h = ap (λ l. x ∷ l) (take-nil n)
  take-roomy (suc n) x (y ∷ xs) h = ap (λ l. x ∷ l) (take-roomy n y xs (omega (arith, h)))

  push_front-take : (n : ℕ) (x : A) (xs : List A) → push_front n x (take n xs) ≡ take n (x ∷ xs)
  unfolding push_front
  push_front-take n x xs = elim (Bool-cases (ltb n (length (x ∷ take n xs)))) [
    | inl full ↦ rw full (pop_back-take n x xs (ground (arith, full, length-take-le n xs)))
    | inr room ↦
        let few : length (take n xs) < n = ground (arith, room) in
        let short = take-short n xs few in
        rw room
          (ap (λ l. x ∷ l) short ∙ sym (take-roomy n x xs (subst (λ l. length l < n) short few)))
  ]

  push_action-take : (n : ℕ) (ys xs : List A) → push_action n ys (take n xs) ≡ take n (ys ++ xs)
  unfolding push_action
  push_action-take n [] xs = refl
  push_action-take n (y ∷ ys) xs =
      ap (push_front n y) (push_action-take n ys xs) ∙ push_front-take n y (ys ++ xs)

  push_actions-take :
      (n : ℕ) (actions : List (List A)) (xs : List A)
      → push_actions n actions (take n xs) ≡ take n (newest_first actions xs)
  unfolding push_actions
  push_actions-take n [] xs = refl
  push_actions-take n (ys ∷ later) xs =
      ap (push_actions n later) (push_action-take n ys xs) ∙ push_actions-take n later (ys ++ xs)

  take-fill : (n : ℕ) (x : A) → take n (fill n x) ≡ fill n x
  unfolding fill
  take-fill zero x = refl
  take-fill (suc n) x = ap (λ l. x ∷ l) (take-fill n x)

  length-take : (n : ℕ) (xs : List A) → n ≤ length xs → length (take n xs) ≡ n
  length-take zero xs h = refl
  length-take (suc n) [] h = ground (arith, h)
  length-take (suc n) (x ∷ xs) h = ap suc (length-take n xs (omega (arith, h)))

  length-fill : (n : ℕ) (x : A) → length (fill n x) ≡ n
  unfolding fill
  length-fill zero x = refl
  length-fill (suc n) x = ap suc (length-fill n x)

  length-newest_first :
      (actions : List (List A)) (xs : List A) → length xs ≤ length (newest_first actions xs)
  length-newest_first [] xs = omega arith
  length-newest_first (ys ∷ later) xs =
      omega (arith, length-newest_first later (ys ++ xs), length-append ys xs)

module _ {P : Processing} where
  process_actions-history :
      (actions : List (List P.Float)) (h : Hover P)
      → (process_actions actions h).action_history
        ≡ push_actions
            (h.action_history_size * h.act_dim)
            (map (remembered P) actions)
            h.action_history
  unfolding process_actions process_action push_actions
  process_actions-history [] h = refl
  process_actions-history (a ∷ later) h = process_actions-history later (process_action a h).1

  -- In an episode an observation has 14 entries and the remembered ones, `action_history_size` times
  -- `act_dim` of them: the actions from the newest, and the value of the reset behind them.
  pub process_observation-process_actions :
      (hover_pos uav_state : ℕ → P.Float) (actions : List (List P.Float)) (h : Hover P)
      → (let n = h.action_history_size * h.act_dim in
          let observed =
            process_observation uav_state (process_actions actions (reset hover_pos h)) in
          (length observed ≡ 14 + n)
          × (drop 14 observed
              ≡ take n (newest_first (map (remembered P) actions) (fill n P.reset_value))))
  unfolding process_observation reset
  process_observation-process_actions hover_pos uav_state actions h =
      let n = h.action_history_size * h.act_dim in
      let start = fill n P.reset_value in
      let acts = map (remembered P) actions in
      let kept : (process_actions actions (reset hover_pos h)).action_history
          ≡ take n (newest_first acts start) =
        process_actions-history actions (reset hover_pos h)
        ∙ ap (push_actions n acts) (sym (take-fill n P.reset_value))
        ∙ push_actions-take n acts start in
      let size : length (take n (newest_first acts start)) ≡ n =
        length-take n (newest_first acts start)
          (omega (arith, length-fill n P.reset_value, length-newest_first acts start)) in
      (omega (arith, ap length kept, size), kept)
