-- ===== src/Async/Close.antt =====
-- `AsyncDRLServerPool::close`: every queue is closed, every worker is joined, and the pool is
-- cleared. While `close` joins a worker, that worker carries out what its queue holds.
pub mod Ends
pub mod Delivers
use gz_drl.Base.{ℕ, zero, suc, ◌≡◌, true, false, [], none, length, if◌then◌else◌, ◌≢◌}
use gz_drl.Async.Queue.{BlockingQueue, push, pop, close_queue}
use gz_drl.Async.Pool.{Task, Command, Pool, check_env, submit, run_command, work, close_queues}
use gz_drl.Async.Schedule.{Action, submits, works, closes, after_work, step, run, replay, outcomes}

module _ {S R : Type 0} where
  -- `t.join()` with at most this many rounds of the worker.
  unfoldable pub join : ℕ → ℕ → Pool S R → Pool S R
  join zero i p = p
  join (suc fuel) i p = join fuel i (after_work p (work i p))

  -- The rounds that suffice: one for each command, and one to find the queue closed.
  abbrev pub rounds : ℕ → Pool S R → ℕ
  rounds i p = suc (length (p.queues i).items)

  -- The loop over the workers `i`, …, `i + n - 1`.
  unfoldable pub join_all : ℕ → ℕ → Pool S R → Pool S R
  unfolding join
  join_all zero i p = p
  join_all (suc n) i p = join_all n (suc i) (if p.workers i then join (rounds i p) i p else p)

  unfoldable pub close : Pool S R → Pool S R
  unfolding join_all close_queues
  close p =
      let joined = join_all p.num_servers 0 (close_queues p) in
      record joined { workers = λ i. false; servers = λ i. none; num_servers = 0 }

  -- What the workers of a pool keep: a worker that has ended left a closed and empty queue behind,
  -- and there is a server for each worker.
  pub record IsRunning (i : ℕ) (p : Pool S R) : Type 0 where
    pub served : p.servers i ≢ none
    pub ended : p.workers i ≡ false → ((p.queues i).closed ≡ true) × ((p.queues i).items ≡ [])

  -- Worker `i` has ended, and has left nothing undone.
  abbrev pub HasEnded : ℕ → Pool S R → Type 0
  HasEnded i p = (p.workers i ≡ false) × ((p.queues i).items ≡ [])
