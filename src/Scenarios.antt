-- ===== src/Scenarios.antt =====
-- Three threads on one queue.
mod Applied
mod Calls
mod Progress
mod Served
mod Limits
mod Outcomes
mod Reentry
use contention_queue.Prelude.{
  ℕ, ◌+◌, ◌≡◌, refl, true, false, Option, none, some, List, [], ◌∷◌, ◌++◌,
}
use contention_queue.Interface.{Client, Callback, ProcessTask, PanicOptions, ProcessResult}
use contention_queue.Handle
use contention_queue.World.{Pc}
use contention_queue.Schedule.{Choice, goes_on, calls, locks, panics, re_locks, repeats, Run, run}

abbrev pub counters : Client
counters = record { Value = ℕ; FrontState = ℕ; MutexState = ℕ; Return = ℕ; Output = ℕ }

-- The value of a task and the one that it may have popped.
abbrev pub merge_next : ℕ → Option ℕ → Callback counters
merge_next v none = Callback.return v
merge_next v (some x) = Callback.return (v + x)

-- Unlocks the mutex once, and merges the next value into its own.
abbrev pub merge : ProcessTask counters
merge v = Callback.unlocked λ _. Callback.pop (merge_next v)

abbrev pub start_three : List (ℕ × Choice counters)
start_three =
    (0, calls 10 merge)
    ∷ (0, goes_on)
    ∷ (0, goes_on)
    ∷ (0, goes_on)
    ∷ (1, calls 20 merge)
    ∷ (1, goes_on)
    ∷ (1, goes_on)
    ∷ (2, calls 30 merge)
    ∷ (2, goes_on)
    ∷ (2, goes_on)
    ∷ []

-- Thread 0 is in the closure of `unlocked`, threads 1 and 2 wait.
abbrev pub contended : Run counters 1
contended = run 0 0 (record { unwrap_mutex_poison = true; unwrap_queue_poison = true }) start_three

contended_pc : contended.last.pc 2 ≡ Pc.waiting merge
unfolding run
contended_pc = refl

abbrev pub finish_three : List (ℕ × Choice counters)
finish_three =
    (0, re_locks none)
    ∷ (0, goes_on)
    ∷ (0, goes_on)
    ∷ (0, goes_on)
    ∷ (0, goes_on)
    ∷ (1, goes_on)
    ∷ (1, goes_on)
    ∷ (1, goes_on)
    ∷ []

abbrev pub options : PanicOptions
options = record { unwrap_mutex_poison = true; unwrap_queue_poison = true }

-- Thread 0 has merged the value of thread 1, and has returned; thread 1 has been told.
abbrev pub merged : Run counters 1
merged = run 0 0 options (start_three ++ finish_three)

merged_pc : (merged.last.pc 0 ≡ Pc.idle) × (merged.last.pc 1 ≡ Pc.idle)
unfolding run
merged_pc = (refl, refl)

-- The values of threads 0 and 1 are taken, the one of thread 2 waits.
merged_values : (merged.ins ≡ 10 ∷ 20 ∷ 30 ∷ []) × (merged.outs ≡ 10 ∷ 20 ∷ [])
unfolding run
merged_values = (refl, refl)

-- Thread 0 runs again after `unlocked`.
abbrev pub popping : Run counters 1
popping = run 0 0 options (start_three ++ (0, re_locks none) ∷ [])

-- Thread 0 has returned without a pop, and thread 1 has been woken and told nothing yet.
abbrev pub handed : Run counters 1
handed =
    run 0 0 options
      (start_three ++ (0, re_locks none) ∷ (0, goes_on) ∷ (0, goes_on) ∷ (0, goes_on) ∷ [])

-- Thread 0 is about to start its callback.
abbrev pub entered : Run counters 1
entered = run 0 0 options ((0, calls 10 merge) ∷ (0, goes_on) ∷ [])

-- The callback panics after its closure has unwound; thread 1 waits.
abbrev pub fails_after : ProcessTask counters
fails_after v = Callback.unlocked λ _. Callback.panic

abbrev pub doomed : Run counters 1
doomed = run 0 0 options (
    (0, calls 10 fails_after)
    ∷ (0, goes_on)
    ∷ (0, goes_on)
    ∷ (0, goes_on)
    ∷ (1, calls 20 merge)
    ∷ (1, goes_on)
    ∷ (1, goes_on)
    ∷ (0, re_locks none)
    ∷ [])

doomed_pc :
    (doomed.last.pc 0 ≡ Pc.running (record { next_idx = 0 }) Callback.panic)
    × (doomed.last.pc 1 ≡ Pc.waiting merge)
unfolding run
doomed_pc = (refl, refl)

handed_pc :
    (handed.last.pc 0 ≡ Pc.returned (ProcessResult.processed 30))
    × (handed.last.pc 1 ≡ Pc.waiting merge)
unfolding run
handed_pc = (refl, refl)

-- `while let Some(_) = handle.pop() {}`, one round at a time.
abbrev next_round : Option ℕ → Callback counters
next_round none = Callback.return 0
next_round (some v) = Callback.again

abbrev pop_all : Callback counters
pop_all = Callback.pop next_round

-- Thread 0 pops until nothing is left, while threads 1 and 2 wait.
abbrev drained : Run counters 1
drained = run 0 0 options (
    (0, calls 10 (λ v. Callback.unlocked (λ o. pop_all)))
    ∷ (0, goes_on)
    ∷ (0, goes_on)
    ∷ (0, goes_on)
    ∷ (1, calls 20 merge)
    ∷ (1, goes_on)
    ∷ (1, goes_on)
    ∷ (2, calls 30 merge)
    ∷ (2, goes_on)
    ∷ (2, goes_on)
    ∷ (0, re_locks none)
    ∷ (0, goes_on)
    ∷ (0, repeats pop_all)
    ∷ (0, goes_on)
    ∷ (0, repeats pop_all)
    ∷ (0, goes_on)
    ∷ (0, goes_on)
    ∷ (0, goes_on)
    ∷ [])

-- It has taken both values, and its call returns.
drained_end :
    (drained.last.pc 0 ≡ Pc.returned (ProcessResult.processed 0))
    × (drained.outs ≡ 10 ∷ 20 ∷ 30 ∷ [])
unfolding run
drained_end = (refl, refl)
