-- ===== src/Scenarios/Calls.antt =====
-- The theorems on single calls, at concrete states.
use contention_queue.Prelude.{ℕ, ◌≡◌, refl, true, false, none, some, [], ◌∷◌, arith, update}
use contention_queue.Interface.{ProcessResult, ProcessTask, Callback}
use contention_queue.Poisoning.{ignore_poison, lock, drop_guard}
use contention_queue.TaskState.{
  TaskState, wait_until_at_front, wake_front_task, wake_front_task_panicking,
}
use contention_queue.Task.{ErasedTask}
use contention_queue.World.{World, Pc, exclusive, set_exclusive, set_mutex, set_frames}
use contention_queue.System.{init}
use contention_queue.Schedule.{run}
use contention_queue.Scenarios.{counters, options}
use contention_queue.TaskState.Table.{has_panicked}
use contention_queue.Solo.{quiet, Alone, call_alone}
use contention_queue.Process.Told.{next_thread_told}

abbrev second : ℕ
second = 1

-- The state of thread 1, once it is woken.
abbrev pub woken : TaskState
woken = record { condvar = record { blocked = false }; state = 1 }

-- A call that finds a free front.
abbrev calm : World counters
calm = (init 0 0 options).world

-- A state in which thread 0 has ended its callback, and thread 1 sleeps at the front of the queue.
abbrev asleep : TaskState
asleep = record { condvar = record { blocked = true }; state = 0 }

abbrev queued : ErasedTask ℕ
queued = record { maybe_dangling = record { state = 1; value = none } }

abbrev ended : World counters
ended = set_frames (update calm.frames 1 (some asleep)) (
    set_exclusive (record { front_locked = true; queue_poisoned = false; queue = queued ∷ [] })
      calm)

abbrev after_ok : World counters
after_ok = set_frames (update ended.frames 1 (some (wake_front_task asleep))) ended

abbrev after_err : World counters
after_err =
    let locked = set_mutex (ignore_poison (lock 0 ended.mutex)) ended in
    let q = set_exclusive (record (exclusive locked) { queue_poisoned = true }) locked in
    let w = set_frames (update ended.frames 1 (some (wake_front_task_panicking asleep))) q in
    set_mutex (drop_guard w.mutex) w

next_thread_told_example :
    ((ts' : TaskState) × (after_ok.frames 1 ≡ some ts')
      × (wait_until_at_front ts' ≡ some (has_panicked 0)))
    × ((ts' : TaskState) × (after_err.frames 1 ≡ some ts') × (wait_until_at_front ts' ≡ some true))
unfolding run
next_thread_told_example =
    next_thread_told 0 ended queued [] asleep ProcessResult.processing_panicked
      (after_ok, Pc.returned ProcessResult.processing_panicked) (after_err, Pc.panicked) refl refl
      (omega arith) refl refl

abbrev quiet_before : World counters
quiet_before = quiet 1 0 options (λ _. none) 0 none false 3 4 true

abbrev quiet_after : World counters
quiet_after = quiet 1 0 options (λ _. none) 1 (some 0) false 5 4 true

-- A callback that releases the mutex for a while, keeps its value in the front state, and looks for
-- another one.
abbrev keeps : ProcessTask counters
keeps v =
    Callback.unlocked (λ o. Callback.set_front_state v (Callback.pop (λ p. Callback.return v)))

call_alone_example :
    Alone 1 0 quiet_before
      (Pc.calling 5 keeps)
      quiet_after
      (Pc.returned (ProcessResult.processed 5))
unfolding run
call_alone_example =
    call_alone 1 0 options (λ _. none) (some 9) 0 5 keeps 3 4 true
      (record { result = 5; front = 5; inner = 4; queue_poisoned = true }) refl refl
