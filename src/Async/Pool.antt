-- ===== src/Async/Pool.antt =====
-- `AsyncDRLServerPool`: construction, submission and the worker loop.
use gz_drl.Base.{
  ℕ, zero, suc, Bool, true, false, List, [], ◌∷◌, ◌++◌, Option, none, some, invalid_argument,
  out_of_range, runtime_error, Result, ok, throws, ◌>>=◌, leb, nat_beq, if◌then◌else◌, write,
}
use gz_drl.Async.Queue.{BlockingQueue, waits, at_end, popped, empty_queue, push, pop, close_queue}

-- What a task does to the server, and what its future receives.
abbrev pub Task : Type 0 → Type 0 → Type 0
Task S R = S → S × Result R

-- A queued task, with the number of its future.
pub record Command (S R : Type 0) : Type 0 where
  pub future : ℕ
  pub fn : Task S R

-- `delivered i` is what worker `i` has put into futures, the earliest first.
pub record Pool (S R : Type 0) : Type 0 where
  pub num_servers : ℕ
  pub queues : ℕ → BlockingQueue (Command S R)
  pub servers : ℕ → Option S
  pub workers : ℕ → Bool
  pub delivered : ℕ → List (ℕ × Result R)
  pub next_future : ℕ

-- `v[i] = a`.
module _ {S : Type 0} where
  -- The loop that asks the factory for servers `i`, …, `i + n - 1`.
  unfoldable pub make_servers : (ℕ → Option S) → ℕ → ℕ → (ℕ → Option S) → Result (ℕ → Option S)
  make_servers factory zero i servers = ok servers
  make_servers factory (suc n) i servers = elim (factory i) [
    | none ↦ throws runtime_error
    | some s ↦ make_servers factory n (suc i) (write servers i (some s))
  ]

module _ {S R : Type 0} where
  -- `InitMethod`: the servers, and a running worker for each.
  unfoldable pub init_method : ℕ → (ℕ → Option S) → Result (Pool S R)
  unfolding make_servers
  init_method num_servers factory =
      if nat_beq num_servers 0
      then throws invalid_argument
      else make_servers factory num_servers 0 (λ i. none) >>= λ servers. ok (record {
        num_servers = num_servers;
        queues = λ i. empty_queue;
        servers = servers;
        workers = λ i. true;
        delivered = λ i. [];
        next_future = 0;
      })

  unfoldable pub check_env : ℕ → Pool S R → Result (Unit {0})
  check_env env_id p = if leb p.num_servers env_id then throws out_of_range else ok tt

  -- The result is the number of the future.
  unfoldable pub submit : ℕ → Task S R → Pool S R → Result (ℕ × Pool S R)
  unfolding check_env push
  submit env_id f p = check_env env_id p >>= λ _.
      push (record { future = p.next_future; fn = f }) (p.queues env_id) >>= λ q. ok (
        p.next_future,
        record p { queues = write p.queues env_id q; next_future = suc p.next_future },
      )

  -- A member function with its arguments, which the task owns.
  unfoldable pub call {ℓ} :
      {A : Type ℓ} → ℕ → (S → A → S × Result R) → A → Pool S R → Result (ℕ × Pool S R)
  unfolding submit check_env
  call env_id mf args p = check_env env_id p >>= λ _. submit env_id (λ srv. mf srv args) p

  -- `c.fn(*servers_[env_id])`. A missing server would be a null dereference.
  unfoldable pub run_command : ℕ → Command S R → Pool S R → Option (Pool S R)
  run_command env_id c p = elim (p.servers env_id) [
    | none ↦ none
    | some s ↦
        let (s', r) = c.fn s in
        some (record p {
          servers = write p.servers env_id (some s');
          delivered = write p.delivered env_id (p.delivered env_id ++ (c.future, r) ∷ []);
        })
  ]

  -- One round of `worker_loop`; `none` where the worker has ended or waits.
  unfoldable pub work : ℕ → Pool S R → Option (Pool S R)
  unfolding pop run_command
  work env_id p =
      if p.workers env_id
      then elim (pop (p.queues env_id)) [
        | waits ↦ none
        | at_end ↦ some (record p { workers = write p.workers env_id false })
        | popped c q ↦ run_command env_id c (record p { queues = write p.queues env_id q })
      ]
      else none

  unfoldable pub close_queues : Pool S R → Pool S R
  unfolding close_queue
  close_queues p = record p {
    queues = λ i. if leb p.num_servers i then p.queues i else close_queue (p.queues i);
  }
