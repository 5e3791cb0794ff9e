-- ===== src/QueueState.antt =====
-- src/queue_state.rs: the state behind the front permission and the state behind the mutex.
use contention_queue.Prelude.{Bool, List}
use contention_queue.Task.{ErasedTask}

pub record FrontExclusive {ℓ} (F : Type ℓ) : Type ℓ where
  pub front_state : F

pub record MutexExclusive {ℓ} (V : Type ℓ) : Type ℓ where
  pub front_locked : Bool
  pub queue_poisoned : Bool
  pub queue : List (ErasedTask V)
