-- ===== src/Async/Queue.antt =====
-- `BlockingQueue`. Each method is one locked block.
use gz_drl.Base.{
  Bool, true, false, List, [], ◌∷◌, ◌++◌, runtime_error, Result, ok, throws, if◌then◌else◌,
}

pub record BlockingQueue {ℓ} (A : Type ℓ) : Type ℓ where
  pub items : List A
  pub closed : Bool

-- What a call of `pop` meets: it waits, it finds the queue closed and empty, or it has an element.
pub data Pop {ℓ} (A : Type ℓ) : Type ℓ where
  waits : Pop A
  at_end : Pop A
  popped : A → BlockingQueue A → Pop A

module _ {ℓ} {A : Type ℓ} where
  abbrev pub empty_queue : BlockingQueue A
  empty_queue = record { items = []; closed = false }

  unfoldable pub push : A → BlockingQueue A → Result (BlockingQueue A)
  push v q = if q.closed then throws runtime_error else ok (record q { items = q.items ++ v ∷ [] })

  unfoldable pub pop : BlockingQueue A → Pop A
  pop q = elim q.items [
    | [] ↦ if q.closed then at_end else waits
    | v ∷ rest ↦ popped v (record q { items = rest })
  ]

  unfoldable pub close_queue : BlockingQueue A → BlockingQueue A
  close_queue q = record q { closed = true }
