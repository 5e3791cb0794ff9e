-- ===== src/Handle.antt =====
-- src/queue_handle.rs: the view of the queue that a task's callback has. The references of a
-- handle are the arguments of its methods; its own state is the index of the next value.
pub mod Values
use contention_queue.Prelude.{ℕ, suc, Bool, false, Option, none, some, get_elem?, set}
use contention_queue.Poisoning.{Outcome, value, panics}
use contention_queue.Task.{ErasedTask, inner, take}
use contention_queue.QueueState.{MutexExclusive}

pub record QueueHandle : Type 0 where
  pub next_idx : ℕ

unfoldable pub new : QueueHandle
new = record { next_idx = 0 }

module _ {ℓ} {V : Type ℓ} where
  -- `expect(..)` on the value of a task that the handle should find unprocessed.
  unfoldable pub expect : Option V → Outcome (Option V)
  expect none = panics
  expect (some v) = value (some v)

  peek_at : Option (ErasedTask V) → Outcome (Option V)
  unfolding expect inner
  peek_at none = value none
  peek_at (some next_task) = expect (inner next_task).value

  unfoldable pub peek : QueueHandle → MutexExclusive V → Outcome (Option V)
  unfolding peek_at
  peek h q = peek_at (get_elem? q.queue h.next_idx)

  pop_at :
      Option (ErasedTask V)
      → QueueHandle
      → MutexExclusive V
      → Outcome (Option V) × QueueHandle × MutexExclusive V
  unfolding expect take
  pop_at none h q = (value none, h, q)
  pop_at (some next_task) h q =
      let (taken, emptied) = take next_task in
      (
        expect taken,
        record { next_idx = suc h.next_idx },
        record q { queue = set q.queue h.next_idx emptied },
      )

  -- The handle and the queue after the call are given also where the `expect` fails.
  unfoldable pub pop :
      QueueHandle → MutexExclusive V → Outcome (Option V) × QueueHandle × MutexExclusive V
  unfolding pop_at
  pop h q = pop_at (get_elem? q.queue h.next_idx) h q

  unfoldable pub is_queue_poisoned : MutexExclusive V → Bool
  is_queue_poisoned q = q.queue_poisoned

  unfoldable pub clear_queue_poison : MutexExclusive V → MutexExclusive V
  clear_queue_poison q = record q { queue_poisoned = false }
