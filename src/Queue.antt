-- ===== src/Queue.antt =====
-- src/queue.rs: the state of a `ContentionQueue`, and what its methods do to the part of it that the
-- mutex protects.
pub mod Address
use contention_queue.Prelude.{
  ℕ, Bool, true, false, ◌&&◌, Option, none, some, List, [], ◌∷◌, ◌++◌, ◌==◌, if◌then◌else◌,
}
use contention_queue.Interface.{PanicOptions, Client}
use contention_queue.Poisoning.{Outcome, value, panics}
use contention_queue.Task.{Task, ErasedTask, erase, into_inner}
use contention_queue.QueueState.{FrontExclusive, MutexExclusive}

pub record ContentionQueue (c : Client) : Type 0 where
  pub mutex_address : ℕ
  pub options : PanicOptions
  pub front_exclusive : FrontExclusive c.FrontState
  pub mutex_exclusive : MutexExclusive c.Value

unfoldable pub new_with_options : {c : Client} → c.FrontState → PanicOptions → ContentionQueue c
new_with_options front_state options = record {
  mutex_address = 0;
  options = options;
  front_exclusive = record { front_state = front_state };
  mutex_exclusive = record { front_locked = false; queue_poisoned = false; queue = [] };
}

unfoldable pub new : {c : Client} → c.FrontState → ContentionQueue c
unfolding new_with_options
new front_state =
    new_with_options front_state (record { unwrap_mutex_poison = true; unwrap_queue_poison = true })

-- `compare_exchange(0, mutex_addr)`: the address that is stored afterwards, or the panic.
unfoldable pub assert_mutex_good : ℕ → ℕ → Outcome ℕ
assert_mutex_good mutex_address mutex_addr =
    if mutex_address == 0
    then value mutex_addr
    else if mutex_address == mutex_addr
    then value mutex_address
    else panics

pub data TaskWaitResult {ℓ} (V : Type ℓ) : Type ℓ where
  process : V → TaskWaitResult V
  processed_elsewhere : TaskWaitResult V
  processing_panicked : TaskWaitResult V

module _ {ℓ} {V : Type ℓ} where
  unfoldable pub try_acquire_front_fast : MutexExclusive V → Bool × MutexExclusive V
  try_acquire_front_fast q =
      if q.front_locked then (false, q) else (true, record q { front_locked = true })

  -- `try_wait_until_at_front`, before the wait: `task_state` is in the frame of thread `i`.
  unfoldable pub push_task : ℕ → V → MutexExclusive V → MutexExclusive V
  unfolding erase
  push_task i v q =
      let unerased_task : Task V = record { state = i; value = some v } in
      record q { queue = q.queue ++ erase unerased_task ∷ [] }

  unfoldable pub wait_result : Option V → Bool → TaskWaitResult V
  wait_result (some this_value) panicked = process this_value
  wait_result none true = TaskWaitResult.processing_panicked
  wait_result none false = TaskWaitResult.processed_elsewhere

  pop_front :
      MutexExclusive V → Bool → List (ErasedTask V) → Option (TaskWaitResult V × MutexExclusive V)
  unfolding into_inner wait_result
  pop_front q panicked [] = none
  pop_front q panicked (this_task ∷ rest) =
      some (wait_result (into_inner this_task).value panicked, record q { queue = rest })

  -- After the wait. `none` is the undefined behaviour of `unwrap_unchecked` on an empty queue.
  unfoldable pub pop_task : MutexExclusive V → Bool → Option (TaskWaitResult V × MutexExclusive V)
  unfolding pop_front
  pop_task q panicked = pop_front q panicked q.queue

  -- `assert!(!mutex_exclusive.queue_poisoned)`, where the options ask for it: whether it panics.
  unfoldable pub queue_poison_panics : PanicOptions → MutexExclusive V → Bool
  queue_poison_panics o q = o.unwrap_queue_poison && q.queue_poisoned

-- `assert!(!mutex.is_poisoned())`, where the options ask for it: whether it panics.
unfoldable pub mutex_poison_panics : PanicOptions → Bool → Bool
mutex_poison_panics o is_poisoned = o.unwrap_mutex_poison && is_poisoned
