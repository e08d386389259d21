-- ===== src/Async/Close/Delivers.antt =====
-- `close` of async_rl_server.hh is one more schedule: every accepted command is carried out.
use gz_drl.Base.{
  ℕ, zero, suc, ◌<◌, ◌≡◌, refl, ap, sym, subst, ◌∙◌, true, false, List, [], ◌∷◌, ◌++◌, Option, some,
  ok, throws, out_of_range, arith, if◌then◌else◌, append_assoc, append-nil,
}
use gz_drl.Async.Pool.{Task, Pool, submit, work, close_queues}
use gz_drl.Async.Schedule.{Action, works, closes, after_work, step, run, outcomes}
use gz_drl.Async.Close.{join, rounds, join_all, close, IsRunning}
use gz_drl.Async.Schedule.{accepted, accepted_one}
use gz_drl.Async.Schedule.Serves.{init-servers, run-serves}
use gz_drl.Async.Pool.{init_method}
use gz_drl.Async.Close.Ends.{close-HasEnded, run-IsRunning, run-size}

module _ {S R : Type 0} where
  run-append : (xs ys : List (Action S R)) (p : Pool S R) → run (xs ++ ys) p ≡ run ys (run xs p)
  unfolding run
  run-append [] ys p = refl
  run-append (x ∷ xs) ys p = run-append xs ys (step x p)

  accepted-append :
      (i : ℕ) (xs ys : List (Action S R)) (p : Pool S R)
      → accepted i (xs ++ ys) p ≡ accepted i xs p ++ accepted i ys (run xs p)
  unfolding accepted run
  accepted-append i [] ys p = refl
  accepted-append i (x ∷ xs) ys p = rw (accepted-append i xs ys (step x p)) (
      sym (
        append_assoc (accepted_one i x p) (accepted i xs (step x p))
          (accepted i ys (run xs (step x p)))))

  -- Steps of workers alone.
  all_work : List ℕ → List (Action S R)
  all_work [] = []
  all_work (j ∷ js) = works j ∷ all_work js

  all_work-append : (js ks : List ℕ) → all_work (js ++ ks) ≡ all_work js ++ all_work ks
  unfolding all_work
  all_work-append [] ks = refl
  all_work-append (j ∷ js) ks = ap (◌∷◌ (works j)) (all_work-append js ks)

  all_work-accepted : (i : ℕ) (js : List ℕ) (p : Pool S R) → accepted i (all_work js) p ≡ []
  unfolding all_work accepted
  all_work-accepted i [] p = refl
  all_work-accepted i (j ∷ js) p = all_work-accepted i js (step (works j) p)

  join-steps : (fuel j : ℕ) (p : Pool S R) → (js : List ℕ) × (join fuel j p ≡ run (all_work js) p)
  unfolding join run all_work step
  join-steps zero j p = ([], refl)
  join-steps (suc fuel) j p =
      let (js, e) = join-steps fuel j (after_work p (work j p)) in (j ∷ js, e)

  join_one-steps :
      (j : ℕ) (p : Pool S R)
      → (js : List ℕ) × ((if p.workers j then join (rounds j p) j p else p) ≡ run (all_work js) p)
  unfolding run all_work
  join_one-steps j p =
      elim (p.workers j)
        as (λ b. (js : List ℕ) × ((if b then join (rounds j p) j p else p) ≡ run (all_work js) p)) [
          | true ↦ join-steps (rounds j p) j p
          | false ↦ ([], refl)
        ]

  join_all-steps : (n j : ℕ) (p : Pool S R) → (js : List ℕ) × (join_all n j p ≡ run (all_work js) p)
  unfolding join_all run all_work
  join_all-steps zero j p = ([], refl)
  join_all-steps (suc n) j p =
      let (js, e) = join_one-steps j p in
      let (ks, f) = join_all-steps n (suc j) (if p.workers j then join (rounds j p) j p else p) in
      (
        js ++ ks,
        f
            ∙ ap (run (all_work ks)) e
            ∙ sym (run-append (all_work js) (all_work ks) p)
            ∙ ap (λ l. run l p) (sym (all_work-append js ks)),
      )

  init-IsRunning :
      (n i : ℕ) (factory : ℕ → Option S) (s : S) (p : Pool S R)
      → init_method n factory ≡ ok p
      → i < n
      → factory i ≡ some s
      → IsRunning i p
  init-IsRunning n i factory s p made lt served =
      let (server, todo, results, alive, size) = init-servers n i factory p made lt in
      record { served = λ h. cc (server, served, h); ended = λ h. cc (alive, h) }

  closing :
      (q : Pool S R) (js : List ℕ)
      → run (closes ∷ all_work js) q ≡ run (all_work js) (close_queues q)
  unfolding run step
  closing q js = refl

  submit_to_none :
      (i : ℕ) (f : Task S R) (q : Pool S R) → q.num_servers ≡ 0 → submit i f q ≡ throws out_of_range
  unfolding submit
  submit_to_none i f q e = ground arith

  no_more : (i : ℕ) (q : Pool S R) (js : List ℕ) → accepted i (closes ∷ all_work js) q ≡ []
  unfolding accepted
  no_more i q js = all_work-accepted i js (step closes q)

  -- `close`, after any steps of a new pool: the pool is empty and takes no more commands, and the
  -- futures of every command that a server had accepted have what the commands give when they are
  -- carried out one after another.
  pub close-delivers :
      (n i : ℕ) (factory : ℕ → Option S) (s : S) (p : Pool S R) (steps : List (Action S R))
      → init_method n factory ≡ ok p
      → i < n
      → factory i ≡ some s
      → let q = close (run steps p) in
        (q.delivered i ≡ outcomes (accepted i steps p) s)
        × ((f : Task S R) → submit i f q ≡ throws out_of_range)
  unfolding close
  close-delivers n i factory s p steps made lt served =
      let (server, todo, results, alive, size) = init-servers n i factory p made lt in
      let q = run steps p in
      let (js, e) = join_all-steps q.num_servers 0 (close_queues q) in
      let total = steps ++ closes ∷ all_work js in
      let same : join_all q.num_servers 0 (close_queues q) ≡ run total p =
        e ∙ sym (run-append steps (closes ∷ all_work js) p ∙ closing q js) in
      let empty =
        close-HasEnded i q (run-IsRunning i steps p (init-IsRunning n i factory s p made lt served))
          (subst (λ k. i < k) (sym (run-size steps p ∙ size)) lt) in
      let (at_end, got) =
        run-serves n i factory s p total made lt served
          (ap (λ k. (k.queues i).items) (sym same) ∙ empty) in
      (
        ap (λ k. k.delivered i) same
            ∙ got
            ∙ ap (λ l. outcomes l s)
                (accepted-append i steps (closes ∷ all_work js) p
                  ∙ ap (λ k. accepted i steps p ++ k) (no_more i q js)
                  ∙ append-nil (accepted i steps p)),
        λ f. submit_to_none i f (close q) refl,
      )
