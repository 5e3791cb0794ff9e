-- ===== src/World.antt =====
-- The shared state that the threads work on, and where a thread stands: a queue of src/queue.rs, the
-- mutex that its clients use with it, and the `TaskState` in the stack frame of each waiting thread.
use contention_queue.Prelude.{ℕ, Option}
use contention_queue.Interface.{Client, Callback, ProcessTask, ProcessResult}
use contention_queue.Poisoning.{Mutex}
use contention_queue.TaskState.{TaskState}
use contention_queue.QueueState.{MutexExclusive}
use contention_queue.Handle.{QueueHandle}
use contention_queue.Queue.{ContentionQueue}

-- `frames i` is `none` where thread `i` has no live `TaskState`, so that a reference to it dangles.
pub record World (c : Client) : Type 0 where
  pub cq : ContentionQueue c
  pub mutex : Mutex c.MutexState
  pub frames : ℕ → Option TaskState

module _ {c : Client} where
  abbrev pub exclusive : World c → MutexExclusive c.Value
  exclusive w = w.cq.mutex_exclusive

  abbrev pub set_exclusive : MutexExclusive c.Value → World c → World c
  set_exclusive q w = record w { cq = record (w.cq) { mutex_exclusive = q } }

  abbrev pub set_mutex : Mutex c.MutexState → World c → World c
  set_mutex m w = record w { mutex = m }

  abbrev pub set_frames : (ℕ → Option TaskState) → World c → World c
  set_frames f w = record w { frames = f }

-- Where a thread stands, with what is live there.
pub data Pc (c : Client) : Type 0 where
  idle : Pc c  -- in client code, without the lock
  guarded : Pc c  -- in client code, with a guard of the mutex
  calling : c.Value → ProcessTask c → Pc c  -- in `lock_and_process`, before `mutex.lock()`
  entering : c.Value → ProcessTask c → Pc c  -- at the start of `process`, with the guard
  waiting : ProcessTask c → Pc c  -- in the `condvar.wait` of `wait_until_at_front`
  running : QueueHandle → Callback c → Pc c  -- in `task.process`, with the guard
  unlocked : QueueHandle → (Option c.Output → Callback c) → Pc c  -- in the closure of `unlocked`
  settling : ProcessResult c.Return → Pc c  -- in the `Ok` branch of `process_unchecked`
  failing : Pc c  -- in the `Err` branch of `process_unchecked`, at `mutex.lock()`
  returned : ProcessResult c.Return → Pc c  -- `process` has returned, with the guard
  panicked : Pc c  -- a panic has reached client code
