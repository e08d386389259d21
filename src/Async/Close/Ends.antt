-- ===== src/Async/Close/Ends.antt =====
-- Every worker that `close` of async_rl_server.hh joins ends, with nothing left in its queue.
use gz_drl.Base.{
  ℕ, zero, suc, ◌+◌, ◌≤◌, ◌<◌, ◌≡◌, refl, ap, sym, subst, ◌∙◌, true, List, [], ◌∷◌, none, arith,
  length, nat_beq_iff, if◌then◌else◌, ◌≢◌,
}
use native.Mathlib.Decide.{ℕ_discrete}
use gz_drl.Async.Pool.{Command, Pool, submit, work, close_queues}
use gz_drl.Async.Schedule.{Action, submits, works, closes, after_work, step, run}
use gz_drl.Async.Close.{join, rounds, join_all, close, IsRunning, HasEnded}

module _ {S R : Type 0} where
  -- The worker of a closed queue ends within the rounds, with nothing left.
  join-HasEnded :
      (todo : List (Command S R)) (i : ℕ) (p : Pool S R)
      → (p.queues i).items ≡ todo
      → (p.queues i).closed ≡ true
      → p.workers i ≡ true
      → p.servers i ≢ none
      → HasEnded i (join (suc (length todo)) i p)
  unfolding join work
  join-HasEnded [] i p e c w s = ground (arith, nat_beq_iff i i)
  join-HasEnded (d ∷ todo) i p e c w s =
      let same = nat_beq_iff i i in
      join-HasEnded todo i (after_work p (work i p)) (ground (arith, same)) (ground (arith, same))
        (ground (arith, same)) (λ h. ground (arith, same))

  -- Server `i`, its worker and its queue.
  abbrev Same : ℕ → Pool S R → Pool S R → Type 0
  Same i p q = (q.queues i ≡ p.queues i) × (q.workers i ≡ p.workers i) × (q.servers i ≡ p.servers i)

  join-Same : (fuel i j : ℕ) (p : Pool S R) → i ≢ j → Same i p (join fuel j p)
  unfolding join work
  join-Same zero i j p h = (refl, refl, refl)
  join-Same (suc fuel) i j p h =
      ground (arith, nat_beq_iff j i, join-Same fuel i j (after_work p (work j p)) h)

  -- `close` joins only workers that still run.
  abbrev join_one : ℕ → Pool S R → Pool S R
  join_one i p = if p.workers i then join (rounds i p) i p else p

  join_one-HasEnded :
      (i : ℕ) (p : Pool S R)
      → IsRunning i p
      → (p.queues i).closed ≡ true
      → HasEnded i (join_one i p)
  join_one-HasEnded i p r c =
      ground (arith, r.ended, join-HasEnded (p.queues i).items i p refl c, r.served)

  join_one-Same : (i j : ℕ) (p : Pool S R) → i ≢ j → Same i p (join_one j p)
  join_one-Same i j p h = ground (arith, join-Same (rounds j p) i j p h)

  join_all-Same : (n i j : ℕ) (p : Pool S R) → i < j → Same i p (join_all n j p)
  unfolding join_all
  join_all-Same zero i j p h = (refl, refl, refl)
  join_all-Same (suc n) i j p h = ground (
    arith,
    join_one-Same i j p (λ (e : i ≡ j). omega arith),
    join_all-Same n i (suc j) (join_one j p) (omega arith),
  )

  join_all-HasEnded :
      (n i j : ℕ) (p : Pool S R)
      → IsRunning i p
      → (p.queues i).closed ≡ true
      → j ≤ i
      → i < j + n
      → HasEnded i (join_all n j p)
  unfolding join_all
  join_all-HasEnded zero i j p r c le lt = absurd (omega arith)
  join_all-HasEnded (suc n) i j p r c le lt = elim (ℕ_discrete j i) [
    | yes same ↦
        let ended : HasEnded i (join_one j p) =
          subst (λ k. HasEnded i (join_one k p)) (sym same) (join_one-HasEnded i p r c) in
        ground (arith, join_all-Same n i (suc j) (join_one j p), ended)
    | no other ↦
        let kept = join_one-Same i j p (λ (e : i ≡ j). other (sym e)) in
        join_all-HasEnded n i (suc j) (join_one j p)
          (record { served = λ h. r.served (sym kept.2 ∙ h); ended = λ h. ground arith })
          (ap (λ q. q.closed) kept.0 ∙ c) (omega arith) (omega arith)
  ]

  pub close-HasEnded :
      (i : ℕ) (p : Pool S R) → IsRunning i p → i < p.num_servers → ((close p).queues i).items ≡ []
  unfolding close
  close-HasEnded i p r lt =
      (join_all-HasEnded p.num_servers i 0 (close_queues p)
        (record {
          served = unfold close_queues in r.served;
          ended = λ h. unfold close_queues in ground arith;
        })
        (unfold close_queues in ground arith) (omega arith) (omega arith)).1

  step-IsRunning : (i : ℕ) (a : Action S R) (p : Pool S R) → IsRunning i p → IsRunning i (step a p)
  unfolding step
  step-IsRunning i (submits j f) p r = unfold submit in ground (arith, nat_beq_iff j i)
  step-IsRunning i (works j) p r = unfold work in ground (arith, nat_beq_iff j i)
  step-IsRunning i closes p r = unfold close_queues in ground arith

  pub run-IsRunning :
      (i : ℕ) (steps : List (Action S R)) (p : Pool S R) → IsRunning i p → IsRunning i (run steps p)
  unfolding run
  run-IsRunning i [] p r = r
  run-IsRunning i (a ∷ rest) p r = run-IsRunning i rest (step a p) (step-IsRunning i a p r)

  step-size : (a : Action S R) (p : Pool S R) → (step a p).num_servers ≡ p.num_servers
  unfolding step submit work close_queues
  step-size (submits j f) p = ground arith
  step-size (works j) p = ground arith
  step-size closes p = ground arith

  pub run-size :
      (steps : List (Action S R)) (p : Pool S R) → (run steps p).num_servers ≡ p.num_servers
  unfolding run
  run-size [] p = refl
  run-size (a ∷ rest) p = run-size rest (step a p) ∙ step-size a p
