-- ===== src/Interface.antt =====
-- src/interface.rs: the options, the results and the callback of a task.
use contention_queue.Prelude.{Bool, true, Option}

pub record PanicOptions : Type 0 where
  pub unwrap_mutex_poison : Bool
  pub unwrap_queue_poison : Bool

-- `impl Default for PanicOptions`.
unfoldable pub default : PanicOptions
default = record { unwrap_mutex_poison = true; unwrap_queue_poison = true }

pub data ProcessResult {ℓ} (R : Type ℓ) : Type ℓ where
  processed : R → ProcessResult R
  processed_elsewhere : ProcessResult R
  processing_panicked : ProcessResult R

-- The types that the client of the library chooses; `Output` is what closures of `unlocked` return.
pub record Client : Type 1 where
  pub Value : Type 0
  pub FrontState : Type 0
  pub MutexState : Type 0
  pub Return : Type 0
  pub Output : Type 0

-- What a `ProcessTask::process` call does next with the value, the front state and the queue
-- handle that it is given: it returns, panics, or uses one of them and goes on with the answer.
-- The answer of `unlocked` is what the closure returns, `none` if it unwinds. A tree of uses is
-- finite on each branch; `again` stands where a loop or a recursion starts its next round, of which
-- nothing is known: any callback may follow, and so may `again`, for ever.
pub data Callback (c : Client) : Type 0 where
  return : c.Return → Callback c
  panic : Callback c
  again : Callback c
  peek : (Option c.Value → Callback c) → Callback c
  pop : (Option c.Value → Callback c) → Callback c
  mutex_state : (c.MutexState → Callback c) → Callback c
  set_mutex_state : c.MutexState → Callback c → Callback c
  front_state : (c.FrontState → Callback c) → Callback c
  set_front_state : c.FrontState → Callback c → Callback c
  unlocked : (Option c.Output → Callback c) → Callback c
  is_queue_poisoned : (Bool → Callback c) → Callback c
  clear_queue_poison : Callback c → Callback c

abbrev pub ProcessTask : Client → Type 0
ProcessTask c = c.Value → Callback c
