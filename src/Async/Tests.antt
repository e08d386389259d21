-- ===== src/Async/Tests.antt =====
-- The pool at concrete inputs: two servers that are counters.
use gz_drl.Base.{
  write, true, ℕ, ◌+◌, ◌≡◌, refl, List, [], ◌∷◌, Option, none, some, ok, throws, runtime_error,
  out_of_range, arith,
}
use gz_drl.Async.Queue.{empty_queue}
use gz_drl.Async.Pool.{Task, Pool, init_method, submit, work}
use gz_drl.Async.Schedule.{Action, submits, works, step, run, accepted, replay, outcomes}
use gz_drl.Async.Schedule.Serves.{run-serves}
use gz_drl.Async.Close.{close}
use gz_drl.Async.Close.Delivers.{close-delivers}

-- A task that adds to the counter and returns the sum, and one that throws.
abbrev add : ℕ → Task ℕ ℕ
add k s = (s + k, ok (s + k))

abbrev fail : Task ℕ ℕ
fail s = (s, throws runtime_error)

abbrev counters : ℕ → Option ℕ
counters i = some 10

abbrev pool : Pool ℕ ℕ
pool = record {
  num_servers = 2;
  queues = λ i. empty_queue;
  servers = write (write (λ i. none) 0 (some 10)) 1 (some 10);
  workers = λ i. true;
  delivered = λ i. [];
  next_future = 0;
}

pool_made : init_method 2 counters ≡ ok pool
unfolding init_method
pool_made = refl

-- Callers and workers of both servers, mixed.
abbrev mixed : List (Action ℕ ℕ)
mixed =
    submits 0 (add 1)
    ∷ submits 1 (add 5)
    ∷ works 1
    ∷ submits 0 fail
    ∷ works 0
    ∷ works 0
    ∷ submits 0 (add 2)
    ∷ works 0
    ∷ []

mixed_done : ((run mixed pool).queues 0).items ≡ []
unfolding run step submit work
mixed_done = refl

mixed_server : (run mixed pool).servers 0 ≡ some 13
unfolding run step submit work
mixed_server = refl

run-serves_example :
    ((run mixed pool).servers 0 ≡ some (replay (accepted 0 mixed pool) 10))
    × ((run mixed pool).delivered 0 ≡ outcomes (accepted 0 mixed pool) 10)
run-serves_example = run-serves 2 0 counters 10 pool mixed pool_made (omega arith) refl mixed_done

-- The pool is closed while commands wait.
abbrev unfinished : List (Action ℕ ℕ)
unfinished = submits 0 (add 1) ∷ submits 0 fail ∷ works 0 ∷ submits 0 (add 2) ∷ []

closed_delivered :
    (close (run unfinished pool)).delivered 0
    ≡ (0, ok 11) ∷ (1, throws runtime_error) ∷ (2, ok 13) ∷ []
unfolding close run step submit work
closed_delivered = refl

close-delivers_example :
    ((close (run unfinished pool)).delivered 0 ≡ outcomes (accepted 0 unfinished pool) 10)
    × ((f : Task ℕ ℕ) → submit 0 f (close (run unfinished pool)) ≡ throws out_of_range)
close-delivers_example = close-delivers 2 0 counters 10 pool unfinished pool_made (omega arith) refl
