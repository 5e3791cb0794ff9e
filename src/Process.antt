-- ===== src/Process.antt =====
-- src/queue.rs, `process` and what it calls: what one thread does from one wait for the lock to the
-- next. `i` is the thread; a result pairs the shared state with where the thread stands then.
pub mod Branches
pub mod Paths
pub mod Resume
pub mod HandOver
pub mod Flags
pub mod Told
use contention_queue.Prelude.{
  ℕ, Bool, true, false, Option, none, some, [], ◌∷◌, update, if◌then◌else◌, List,
}
use contention_queue.Interface.{Client, ProcessTask, ProcessResult}
use contention_queue.Poisoning.{
  Outcome, value, panics, unwrap_poison, ignore_poison, lock, drop_guard, unwind_guard,
}
use contention_queue.TaskState.{TaskState, wait, wake_front_task, wake_front_task_panicking}
use contention_queue.TaskState
use contention_queue.Task.{ErasedTask, inner}
use contention_queue.Handle
use contention_queue.Queue.{
  TaskWaitResult, assert_mutex_good, try_acquire_front_fast, push_task, pop_task,
  queue_poison_panics, mutex_poison_panics,
}
use contention_queue.World.{
  World, exclusive, set_exclusive, set_mutex, set_frames, Pc, entering, waiting, running, settling,
  failing, returned, panicked,
}

module _ {c : Client} where
  -- A panic inside `catch_unwind` while `guard` is a local variable.
  unfoldable pub unwind : World c → World c × Pc c
  unwind w = (set_mutex (unwind_guard w.mutex) w, failing)

  -- `try_process_unchecked`, from the test of the mutex poison to the call of the callback.
  unfoldable pub start_processing : World c → c.Value → ProcessTask c → World c × Pc c
  unfolding unwind
  start_processing w v task =
      if mutex_poison_panics w.cq.options w.mutex.is_poisoned
      then unwind w
      else (w, running Handle.new (task v))

  -- `try_wait_until_at_front`, up to the wait; `condvar.wait` releases the mutex.
  unfoldable pub start_waiting : ℕ → World c → c.Value → ProcessTask c → World c × Pc c
  start_waiting i w v task = (
    set_frames (update w.frames i (some (wait TaskState.new)))
        (set_mutex (drop_guard w.mutex) (set_exclusive (push_task i v (exclusive w)) w)),
    waiting task,
  )

  unfoldable pub try_process_unchecked : ℕ → World c → c.Value → ProcessTask c → World c × Pc c
  try_process_unchecked i w v task =
      let (acquired_front, q) = try_acquire_front_fast (exclusive w) in
      if acquired_front
      then start_processing (set_exclusive q w) v task
      else start_waiting i w v task

  -- `process`, whose argument `mutex` is at address `mutex_addr`, up to its first wait or to its
  -- callback; `w.mutex` is the mutex of its argument `guard`. The code checks the address alone, and
  -- nothing makes the two one mutex; the moves of System and Mutexes pass them as one, as the safety
  -- comments of `process_unchecked` ask, and Mutexes.Mixed has a call with two.
  unfoldable pub process : ℕ → ℕ → World c → c.Value → ProcessTask c → World c × Pc c
  process mutex_addr i w v task = elim (assert_mutex_good w.cq.mutex_address mutex_addr) [
    | panics ↦ (set_mutex (unwind_guard w.mutex) w, panicked)
    | value a ↦
        try_process_unchecked i (record w { cq = record (w.cq) { mutex_address = a } }) v task
  ]

  -- The first line of `lock_and_process`, once the lock is acquired.
  unfoldable pub lock_and_process : ℕ → World c → c.Value → ProcessTask c → World c × Pc c
  lock_and_process i w v task =
      elim (unwrap_poison (lock i w.mutex) w.cq.options.unwrap_mutex_poison) [
        | panics ↦ (set_mutex (unwind_guard w.mutex) w, panicked)
        | value m ↦ (set_mutex m w, entering v task)
      ]

  -- `try_process_unchecked`, after `try_wait_until_at_front` has returned.
  unfoldable pub dispatch : World c → ProcessTask c → TaskWaitResult c.Value → World c × Pc c
  dispatch w task (TaskWaitResult.process v) = start_processing w v task
  dispatch w task TaskWaitResult.processed_elsewhere =
      (w, settling ProcessResult.processed_elsewhere)
  dispatch w task TaskWaitResult.processing_panicked =
      (w, settling ProcessResult.processing_panicked)

  unfoldable pub after_wait : World c → ProcessTask c → TaskWaitResult c.Value → World c × Pc c
  unfolding unwind
  after_wait w task result =
      if queue_poison_panics w.cq.options (exclusive w) then unwind w else dispatch w task result

  -- `try_wait_until_at_front` from the break of the loop on; the frame's `TaskState` is dropped.
  unfoldable pub resume : ℕ → World c → ProcessTask c → Bool → Option (World c × Pc c)
  resume i w task panicked_bit = elim (pop_task (exclusive w) panicked_bit) [
    | none ↦ none
    | some (result, q) ↦
        some (after_wait (set_frames (update w.frames i none) (set_exclusive q w)) task result)
  ]

  wake_task : (TaskState → TaskState) → World c → List (ErasedTask c.Value) → Option (World c)
  unfolding inner
  wake_task wake w [] = some (set_exclusive (record (exclusive w) { front_locked = false }) w)
  wake_task wake w (next ∷ _) = elim (w.frames (inner next).state) [
    | none ↦ none
    | some s ↦ some (set_frames (update w.frames (inner next).state (some (wake s))) w)
  ]

  -- The end of both branches of `process_unchecked`: transfer the front permission, or release it.
  -- `none` is a use of a dangling reference.
  unfoldable pub hand_over : (TaskState → TaskState) → World c → Option (World c)
  unfolding wake_task
  hand_over wake w = wake_task wake w (exclusive w).queue

  -- The `Ok` branch.
  unfoldable pub settle : World c → ProcessResult c.Return → Option (World c × Pc c)
  settle w result = elim (hand_over wake_front_task w) [
    | none ↦ none
    | some w' ↦ some (w', returned result)
  ]

  -- The `Err` branch, once the lock is acquired.
  unfoldable pub fail : ℕ → World c → Option (World c × Pc c)
  fail i w =
      let locked = set_mutex (ignore_poison (lock i w.mutex)) w in
      let poisoned = set_exclusive (record (exclusive w) { queue_poisoned = true }) locked in
      elim (hand_over wake_front_task_panicking poisoned) [
        | none ↦ none
        | some w' ↦ some (set_mutex (drop_guard w'.mutex) w', panicked)
      ]

  -- `is_queue_poisoned` and `clear_queue_poison` of the queue, called without the lock.
  unfoldable pub is_queue_poisoned : ℕ → ℕ → World c → Outcome (Bool × World c)
  is_queue_poisoned mutex_addr i w = elim (assert_mutex_good w.cq.mutex_address mutex_addr) [
    | panics ↦ panics
    | value a ↦
        let w' : World c = record w { cq = record (w.cq) { mutex_address = a } } in
        let locked = set_mutex (ignore_poison (lock i w'.mutex)) w' in
        value ((exclusive locked).queue_poisoned, set_mutex (drop_guard locked.mutex) locked)
  ]

  unfoldable pub clear_queue_poison : ℕ → ℕ → World c → Outcome (World c)
  clear_queue_poison mutex_addr i w = elim (assert_mutex_good w.cq.mutex_address mutex_addr) [
    | panics ↦ panics
    | value a ↦
        let w' : World c = record w { cq = record (w.cq) { mutex_address = a } } in
        let locked = set_mutex (ignore_poison (lock i w'.mutex)) w' in
        let cleared = set_exclusive (record (exclusive locked) { queue_poisoned = false }) locked in
        value (set_mutex (drop_guard cleared.mutex) cleared)
  ]
