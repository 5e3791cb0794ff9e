-- ===== src/Task.antt =====
-- src/task.rs: a queued task and its form with the lifetimes erased.
use contention_queue.Prelude.{ℕ, Option, none}

-- `state` is the reference to the waiting thread's `TaskState`: the thread whose frame holds it.
pub record Task {ℓ} (V : Type ℓ) : Type ℓ where
  pub state : ℕ
  pub value : Option V

-- The transmutes keep the bytes and forget until when the references in them are valid.
pub record ErasedTask {ℓ} (V : Type ℓ) : Type ℓ where
  pub maybe_dangling : Task V
  pub open maybe_dangling use *

module _ {ℓ} {V : Type ℓ} where
  unfoldable pub erase : Task V → ErasedTask V
  erase t = record { maybe_dangling = t }

  unfoldable pub into_inner : ErasedTask V → Task V
  into_inner e = e.maybe_dangling

  unfoldable pub inner : ErasedTask V → Task V
  inner e = e.maybe_dangling

  -- `value.replace(None)`: what was there, and the task after it.
  unfoldable pub take : ErasedTask V → Option V × ErasedTask V
  take e = (e.value, record { maybe_dangling = record { state = e.state; value = none } })
