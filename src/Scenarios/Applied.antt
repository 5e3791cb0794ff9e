-- ===== src/Scenarios/Applied.antt =====
-- The theorems at the states of the scenarios.
use contention_queue.Prelude.{
  ℕ, ◌≡◌, refl, true, false, some, List, ◌∷◌, ◌++◌, Option, arith, update,
}
use contention_queue.Interface.{ProcessResult}
use contention_queue.Poisoning.{value, ignore_poison, lock}
use contention_queue.TaskState.{TaskState, notify_one}
use contention_queue.Task.{ErasedTask}
use contention_queue.Handle
use contention_queue.Handle.{QueueHandle}
use contention_queue.Queue.{wait_result}
use contention_queue.World.{World, Pc, exclusive, set_mutex, set_frames, failing}
use contention_queue.Process.Resume.{after_pop}
use contention_queue.Process.{resume, after_wait, settle, fail}
use contention_queue.System.{System, Move, here}
use contention_queue.Invariant.{is_waiting}
use contention_queue.Schedule.{run}
use contention_queue.Scenarios.{contended, merged, popping, handed, doomed, merge, counters}
use contention_queue.Order.{values}
use contention_queue.Order.History.{History-Reach, first_in_first_out}
use contention_queue.Order.Drain.{drain, drain_takes_all}
use contention_queue.Safety.{front_exclusion}
use contention_queue.Safety.Frame.{read_state, lock_protects}
use contention_queue.Safety.Memory.{pops_own_task, handle_returns, hands_over}
use contention_queue.Safety.Progress.{Progress, HasPermitted, no_lost_wakeup, waiters_progress}
use contention_queue.Safety.Hang.{callback_panic-hangs}

abbrev thread : ℕ
thread = 0

abbrev second : ℕ
second = 1

abbrev start_handle : QueueHandle
start_handle = record { next_idx = 0 }

-- The state of thread 1, once it is woken.
abbrev woken : TaskState
woken = record { condvar = record { blocked = false }; state = 1 }

front_exclusion_example : (thread ≡ thread) × ((exclusive contended.last.world).front_locked ≡ true)
unfolding run
front_exclusion_example = front_exclusion (History-Reach contended.history) 0 0 refl refl

first_in_first_out_example : merged.outs ++ values (exclusive merged.last.world).queue ≡ merged.ins
first_in_first_out_example = first_in_first_out merged.history

waiters_progress_example : Progress (History-Reach contended.history)
unfolding run
waiters_progress_example = waiters_progress (History-Reach contended.history) 1 refl (λ j e. cc)

no_lost_wakeup_example : HasPermitted (History-Reach contended.history)
unfolding run
no_lost_wakeup_example = no_lost_wakeup (History-Reach contended.history) 1 refl

pops_own_task_example :
    let w : World counters =
      set_mutex (ignore_poison (lock 1 handed.last.world.mutex)) handed.last.world in
    (t : ErasedTask ℕ) × (rest : List (ErasedTask ℕ)) × ((exclusive handed.last.world).queue
      ≡ t ∷ rest)
    × (t.state ≡ second)
    × (resume 1 w merge false
        ≡ some (after_wait (after_pop 1 w merge false rest) merge (wait_result t.value false)))
unfolding run
pops_own_task_example =
    pops_own_task (History-Reach handed.history) 1 merge woken false refl refl refl

handle_returns_example :
    ((o : Option ℕ) × (Handle.peek start_handle (exclusive popping.last.world) ≡ value o))
    × ((o : Option ℕ) × ((Handle.pop start_handle (exclusive popping.last.world)).0 ≡ value o))
unfolding run
handle_returns_example = handle_returns (History-Reach popping.history) 0 start_handle _ refl

hands_over_example :
    ((x : World counters × Pc counters) × (settle handed.last.world (ProcessResult.processed 7)
        ≡ some x))
    × ((x : World counters × Pc counters) × (fail 0 handed.last.world ≡ some x))
hands_over_example = hands_over (History-Reach handed.history) 0 (ProcessResult.processed 7)

-- The state in which the panic has reached the `Err` branch.
abbrev stuck : System counters
stuck = record { world = doomed.last.world; pc = update doomed.last.pc 0 failing }

callback_panic-hangs_example :
    (stuck.pc 0 ≡ failing)
    × (stuck.world.mutex.holder ≡ some 0)
    × ((exclusive stuck.world).front_locked ≡ true)
    × ((j : ℕ) → is_waiting (doomed.last.pc j) ≡ true → is_waiting (stuck.pc j) ≡ true)
unfolding run
callback_panic-hangs_example =
    callback_panic-hangs 0 start_handle (History-Reach doomed.history) refl here

drain_takes_all_example :
    drain 5 start_handle (exclusive popping.last.world)
    ≡ values (exclusive popping.last.world).queue
unfolding run
drain_takes_all_example =
    drain_takes_all 0 5 start_handle _ (History-Reach popping.history) refl (omega arith)

-- Thread 0 runs its callback, and thread 1 wakes up without a notification.
abbrev roused : World counters
unfolding run
roused =
    set_frames
      (update popping.last.world.frames 1
        (some (notify_one (record { condvar = record { blocked = true }; state = 0 }))))
      popping.last.world

lock_protects_example :
    (exclusive roused ≡ exclusive popping.last.world)
    × (roused.mutex.inner ≡ popping.last.world.mutex.inner)
    × (roused.mutex.holder ≡ some 0)
    × ((k : ℕ) → read_state (roused.frames k) ≡ read_state (popping.last.world.frames k))
unfolding run
lock_protects_example =
    lock_protects 1 0 (History-Reach popping.history) refl (omega arith)
      (Move.wakes_spuriously refl)
