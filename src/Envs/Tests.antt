-- ===== src/Envs/Tests.antt =====
-- Runs of the utilities of the environments, and their theorems at concrete inputs.
mod Image
mod Environments
mod Episode
use gz_drl.Base.{
  ℕ, ◌≡◌, refl, true, false, some, List, [], ◌∷◌, nat_beq, if◌then◌else◌, nat_eq, name_eq,
  invalid_argument, ok, throws, ◌>>=◌,
}
use gz_drl.Envs.RingBuffer.{make}
use gz_drl.Envs.RingBuffer.Refines.{
  Op, do_push_overwrite, do_push, do_pop, ask, do_peek, do_peek_reverse, queue_answers, done,
  pushed, popped, told, copied, answers, answers-make,
}

abbrev some_ops : List (Op ℕ)
some_ops =
    do_push 1
    ∷ do_push_overwrite 2
    ∷ do_push 3
    ∷ do_push_overwrite 4
    ∷ do_peek 5
    ∷ do_peek_reverse 1
    ∷ ask
    ∷ do_pop
    ∷ []

queue_answers_run :
    queue_answers 2 some_ops []
    ≡ pushed true
      ∷ done
      ∷ pushed false
      ∷ done
      ∷ copied (2, 2 ∷ 4 ∷ [])
      ∷ copied (1, 4 ∷ [])
      ∷ told 2 false true
      ∷ popped (some 2)
      ∷ []
unfolding queue_answers
queue_answers_run = refl

answers-make_example :
    (make 0 2 >>= λ r. ok (answers some_ops r))
    ≡ (if nat_beq 2 0 then throws invalid_argument else ok (queue_answers 2 some_ops []))
answers-make_example = answers-make 0 2 some_ops
