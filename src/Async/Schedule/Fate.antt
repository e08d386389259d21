-- ===== src/Async/Schedule/Fate.antt =====
-- One step of a thread and one server of the pool in async_rl_server.hh: what the server has done
-- and what its queue still holds come to one fate.
use gz_drl.Base.{
  ℕ, ◌≡◌, refl, ap, ap₂, sym, ◌∙◌, Bool, true, false, List, [], ◌∷◌, ◌++◌, Option, none, some,
  Result, arith, nat_beq, nat_beq_iff, append_assoc, append-nil, inl, inr, ◌⊎◌,
}
use gz_drl.Async.Pool.{Task, Command, Pool, submit, work, close_queues}
use gz_drl.Async.Schedule.{
  Action, submits, works, closes, step, run, accepted_one, accepted, replay, outcomes,
}

module _ {S R : Type 0} where
  replay-append :
      (cs ds : List (Command S R)) (s : S) → replay (cs ++ ds) s ≡ replay ds (replay cs s)
  unfolding replay
  replay-append [] ds s = refl
  replay-append (c ∷ cs) ds s = replay-append cs ds (c.fn s).0

  outcomes-append :
      (cs ds : List (Command S R)) (s : S)
      → outcomes (cs ++ ds) s ≡ outcomes cs s ++ outcomes ds (replay cs s)
  unfolding outcomes replay
  outcomes-append [] ds s = refl
  outcomes-append (c ∷ cs) ds s = rw (outcomes-append cs ds (c.fn s).0)

  -- What is left to do on server `i` of `p` ends as `cs` would have ended on `s`, with the futures
  -- that got `rs` first.
  abbrev pub Fate : ℕ → Pool S R → List (Command S R) → S → List (ℕ × Result R) → Type 0
  Fate i p cs s rs =
      (s' : S) × (p.servers i ≡ some s')
      × (replay (p.queues i).items s' ≡ replay cs s)
      × (p.delivered i ++ outcomes (p.queues i).items s' ≡ rs ++ outcomes cs s)

  pub submit-keeps :
      (i j : ℕ) (f : Task S R) (p : Pool S R)
      → let q = step (submits j f) p in
        (q.servers i ≡ p.servers i)
        × (q.delivered i ≡ p.delivered i)
        × ((q.queues i).items ≡ (p.queues i).items ++ accepted_one i (submits j f) p)
  unfolding step submit
  submit-keeps i j f p = ground (arith, nat_beq_iff j i, append-nil (p.queues i).items)

  pub close-keeps :
      (i : ℕ) (p : Pool S R)
      → let q = close_queues p in
        (q.servers i ≡ p.servers i)
        × (q.delivered i ≡ p.delivered i)
        × ((q.queues i).items ≡ (p.queues i).items)
  unfolding close_queues
  close-keeps i p = ground arith

  -- Nothing has changed at server `i`.
  abbrev pub Untouched : ℕ → Pool S R → Pool S R → Type 0
  Untouched i p q =
      (q.servers i ≡ p.servers i)
      × (q.delivered i ≡ p.delivered i)
      × ((q.queues i).items ≡ (p.queues i).items)

  -- Server `i` has carried out the first command of its queue.
  abbrev pub Served : ℕ → Pool S R → Pool S R → Type 0
  Served i p q =
      (c : Command S R) × (s : S) × (cs : List (Command S R)) × ((p.queues i).items ≡ c ∷ cs)
      × (p.servers i ≡ some s)
      × (q.servers i ≡ some (c.fn s).0)
      × (q.delivered i ≡ p.delivered i ++ (c.future, (c.fn s).1) ∷ [])
      × ((q.queues i).items ≡ cs)

  -- A worker changes nothing at another server, and at its own it carries out the next command.
  pub work-cases :
      (i j : ℕ) (p : Pool S R) → Untouched i p (step (works j) p) ⊎ Served i p (step (works j) p)
  unfolding step work
  work-cases i j p =
      go (p.workers j) refl (p.queues j).items refl (p.servers j) refl (nat_beq j i) refl
    where
      go :
          (w : Bool)
          → p.workers j ≡ w
          → (todo : List (Command S R)) → (p.queues j).items ≡ todo
          → (server : Option S) → p.servers j ≡ server
          → (same : Bool) → nat_beq j i ≡ same
          → Untouched i p (step (works j) p) ⊎ Served i p (step (works j) p)
      go false ew todo et server es same en = inl (ground arith, ground arith, ground arith)
      go true ew [] et server es same en = inl (ground arith, ground arith, ground arith)
      go true ew (c ∷ cs) et none es same en = inl (ground arith, ground arith, ground arith)
      go true ew (c ∷ cs) et (some s) es false en = inl (ground arith, ground arith, ground arith)
      go true ew (c ∷ cs) et (some s) es true en =
          let i_is_j = nat_beq_iff j i in
          inr (
            c,
            s,
            cs,
            ground (arith, i_is_j),
            ground (arith, i_is_j),
            ground arith,
            ground (arith, i_is_j),
            ground arith,
          )

  kept-Fate :
      (i : ℕ) (p q : Pool S R) (s : S) (cs : List (Command S R))
      → p.servers i ≡ some s
      → q.servers i ≡ p.servers i
      → q.delivered i ≡ p.delivered i
      → (q.queues i).items ≡ cs
      → Fate i q cs s (p.delivered i)
  kept-Fate i p q s cs e server results todo =
      (s, server ∙ e, ap (λ l. replay l s) todo, ap₂ (λ rs l. rs ++ outcomes l s) results todo)

  after_worker :
      (i : ℕ) (p q : Pool S R) (s : S)
      → p.servers i ≡ some s
      → Served i p q
      → Fate i q ((p.queues i).items ++ []) s (p.delivered i)
  unfolding replay outcomes
  after_worker i p q s e (c, t, cs, todo, server, moved, results, left) =
      let same : t ≡ s = cc in
      rw (append-nil (p.queues i).items, todo, ← same)
        (
          (c.fn t).0,
          moved,
          ap (λ l. replay l (c.fn t).0) left,
          ap₂ (λ rs l. rs ++ outcomes l (c.fn t).0) results left
              ∙ append_assoc (p.delivered i) ((c.future, (c.fn t).1) ∷ []) (outcomes cs (c.fn t).0),
        )

  pub step-Fate :
      (i : ℕ) (a : Action S R) (p : Pool S R) (s : S)
      → p.servers i ≡ some s
      → Fate i (step a p) ((p.queues i).items ++ accepted_one i a p) s (p.delivered i)
  step-Fate i (submits j f) p s e =
      let (server, results, todo) = submit-keeps i j f p in
      kept-Fate i p (step (submits j f) p) s _ e server results todo
  step-Fate i (works j) p s e = elim (work-cases i j p) [
    | inl (server, results, todo) ↦
        kept-Fate i p (step (works j) p) s _ e server results
          (todo ∙ sym (append-nil (p.queues i).items))
    | inr served ↦ after_worker i p (step (works j) p) s e served
  ]
  step-Fate i closes p s e =
      let (server, results, todo) = close-keeps i p in
      unfold step in
      kept-Fate i p (close_queues p) s _ e server results
        (todo ∙ sym (append-nil (p.queues i).items))

  regroup-replay :
      (xs ys one more : List (Command S R)) (t s : S)
      → replay xs t ≡ replay (ys ++ one) s
      → replay (xs ++ more) t ≡ replay (ys ++ (one ++ more)) s
  regroup-replay xs ys one more t s h =
      rw (replay-append xs more t, ← append_assoc ys one more, replay-append (ys ++ one) more s, h)

  regroup-outcomes :
      (ds es : List (ℕ × Result R)) (xs ys one more : List (Command S R)) (t s : S)
      → replay xs t ≡ replay (ys ++ one) s
      → ds ++ outcomes xs t ≡ es ++ outcomes (ys ++ one) s
      → ds ++ outcomes (xs ++ more) t ≡ es ++ outcomes (ys ++ (one ++ more)) s
  regroup-outcomes ds es xs ys one more t s h k =
      rw
        (
          outcomes-append xs more t,
          ← append_assoc ys one more,
          outcomes-append (ys ++ one) more s,
          h,
          ← append_assoc ds,
          k,
        )
        (append_assoc es (outcomes (ys ++ one) s) _)

  -- Along any steps, a server and its futures come to what the commands it had and those it
  -- accepted make of them, one after another.
  pub run-Fate :
      (i : ℕ) (rest : List (Action S R)) (p : Pool S R) (s : S)
      → p.servers i ≡ some s
      → Fate i (run rest p) ((p.queues i).items ++ accepted i rest p) s (p.delivered i)
  unfolding run accepted
  run-Fate i [] p s e = kept-Fate i p p s _ e refl refl (sym (append-nil (p.queues i).items))
  run-Fate i (a ∷ rest) p s e =
      let (t, e', played, came) = step-Fate i a p s e in
      let (u, e'', played', came') = run-Fate i rest (step a p) t e' in
      (
        u,
        e'',
        played'
            ∙ regroup-replay (((step a p).queues i).items) ((p.queues i).items) (accepted_one i a p)
                _ t s played,
        came'
            ∙ regroup-outcomes ((step a p).delivered i) (p.delivered i)
                (((step a p).queues i).items) ((p.queues i).items) (accepted_one i a p) _ t s played
                came,
      )
