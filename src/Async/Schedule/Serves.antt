-- ===== src/Async/Schedule/Serves.antt =====
-- A new pool of async_rl_server.hh and any steps of its threads.
use gz_drl.Base.{
  write, ℕ, zero, suc, ◌+◌, ◌≤◌, ◌<◌, ◌≡◌, refl, ap, ap₂, sym, ◌∙◌, true, List, [], ◌++◌, Option,
  none, some, Result, ok, throws, arith, nat_beq_iff, append-nil, inl, inr, Option-cases,
}
use gz_drl.Async.Pool.{Pool, make_servers, init_method}
use gz_drl.Async.Schedule.{Action, run, accepted, replay, outcomes}
use gz_drl.Async.Schedule.Fate.{run-Fate}

module _ {S : Type 0} where
  make_servers-at :
      (factory : ℕ → Option S) (n i : ℕ) (servers made : ℕ → Option S)
      → make_servers factory n i servers ≡ ok made
      → (j : ℕ) → (j < i → made j ≡ servers j) × (i ≤ j → j < i + n → made j ≡ factory j)
  unfolding make_servers
  make_servers-at factory zero i servers made h j = ground arith
  make_servers-at factory (suc n) i servers made h j = elim (Option-cases (factory i)) [
    | inl e ↦ absurd (ground arith)
    | inr (s, e) ↦ ground (
      arith,
      nat_beq_iff i j,
      make_servers-at factory n (suc i) (write servers i (some s)) made (ground arith) j,
    )
  ]

module _ {S R : Type 0} where
  -- A new pool has the factory's servers, and nothing to do.
  pub init-servers :
      (n i : ℕ) (factory : ℕ → Option S) (p : Pool S R)
      → init_method n factory ≡ ok p
      → i < n
      → (p.servers i ≡ factory i)
        × ((p.queues i).items ≡ [])
        × (p.delivered i ≡ [])
        × (p.workers i ≡ true)
        × (p.num_servers ≡ n)
  unfolding init_method
  init-servers n i factory p h lt = go (make_servers factory n 0 (λ i. none)) refl
    where
      go :
          (r : Result (ℕ → Option S))
          → make_servers factory n 0 (λ i. none) ≡ r
          → (p.servers i ≡ factory i)
            × ((p.queues i).items ≡ [])
            × (p.delivered i ≡ [])
            × (p.workers i ≡ true)
            × (p.num_servers ≡ n)
      go (throws error) e = absurd (ground arith)
      go (ok made) e = ground (arith, make_servers-at factory n 0 (λ i. none) made e i)

  -- Whatever the callers and the workers do and in whatever order: once the queue of a server is
  -- empty, the server is where its accepted commands, carried out one after another, would have
  -- brought it, and their futures have what they would have got.
  pub run-serves :
      (n i : ℕ) (factory : ℕ → Option S) (s : S) (p : Pool S R) (steps : List (Action S R))
      → init_method n factory ≡ ok p
      → i < n
      → factory i ≡ some s
      → ((run steps p).queues i).items ≡ []
      → ((run steps p).servers i ≡ some (replay (accepted i steps p) s))
        × ((run steps p).delivered i ≡ outcomes (accepted i steps p) s)
  unfolding replay outcomes
  run-serves n i factory s p steps made lt served done =
      let (server, todo, results, w, size) = init-servers n i factory p made lt in
      let (u, e, played, came) = run-Fate i steps p s (server ∙ served) in
      let all = accepted i steps p in
      let end : u ≡ replay all s =
        ap (λ l. replay l u) (sym done) ∙ played ∙ ap (λ l. replay (l ++ all) s) todo in
      (
        e ∙ ap some end,
        sym (append-nil ((run steps p).delivered i))
            ∙ ap (λ l. (run steps p).delivered i ++ outcomes l u) (sym done)
            ∙ came
            ∙ ap₂ (λ rs l. rs ++ outcomes (l ++ all) s) results todo,
      )
