-- ===== src/Async/Schedule.antt =====
-- Workers and callers in any order: what a server has been through depends only on the commands
-- that were accepted for it.
pub mod Fate
pub mod Serves
use gz_drl.Base.{
  ℕ, zero, suc, List, [], ◌∷◌, ◌++◌, Option, none, some, Result, ok, throws, nat_beq, if◌then◌else◌,
}
use gz_drl.Async.Queue.{BlockingQueue, push, pop, close_queue}
use gz_drl.Async.Pool.{
  Task, Command, Pool, make_servers, init_method, submit, run_command, work, close_queues,
}

-- A step of some thread.
pub data Action (S R : Type 0) : Type 0 where
  submits : ℕ → Task S R → Action S R
  works : ℕ → Action S R
  closes : Action S R

module _ {S R : Type 0} where
  abbrev pub after_submit : Pool S R → Result (ℕ × Pool S R) → Pool S R
  after_submit p (ok (future, q)) = q
  after_submit p (throws e) = p

  abbrev pub after_work : Pool S R → Option (Pool S R) → Pool S R
  after_work p none = p
  after_work p (some q) = q

  -- A refused or a waiting step changes nothing.
  unfoldable pub step : Action S R → Pool S R → Pool S R
  step (submits i f) p = after_submit p (submit i f p)
  step (works i) p = after_work p (work i p)
  step closes p = close_queues p

  unfoldable pub run : List (Action S R) → Pool S R → Pool S R
  run [] p = p
  run (a ∷ rest) p = run rest (step a p)

  abbrev pub accepted_by : ℕ → ℕ → Command S R → Result (ℕ × Pool S R) → List (Command S R)
  accepted_by i j c (ok r) = if nat_beq i j then c ∷ [] else []
  accepted_by i j c (throws e) = []

  -- The commands that step `a` adds to the queue of server `j`.
  abbrev pub accepted_one : ℕ → Action S R → Pool S R → List (Command S R)
  accepted_one j (submits i f) p =
      accepted_by i j (record { future = p.next_future; fn = f }) (submit i f p)
  accepted_one j (works i) p = []
  accepted_one j closes p = []

  -- The commands that server `j` accepted along the steps, the earliest first.
  unfoldable pub accepted : ℕ → List (Action S R) → Pool S R → List (Command S R)
  accepted j [] p = []
  accepted j (a ∷ rest) p = accepted_one j a p ++ accepted j rest (step a p)

  -- One command after another on one server, and nothing else.
  unfoldable pub replay : List (Command S R) → S → S
  replay [] s = s
  replay (c ∷ cs) s = replay cs (c.fn s).0

  -- What the futures of these commands receive.
  unfoldable pub outcomes : List (Command S R) → S → List (ℕ × Result R)
  outcomes [] s = []
  outcomes (c ∷ cs) s = (c.future, (c.fn s).1) ∷ outcomes cs (c.fn s).0
