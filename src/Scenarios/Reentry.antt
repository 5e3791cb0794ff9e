-- ===== src/Scenarios/Reentry.antt =====
-- A callback that uses its own queue in the closure of `unlocked`, at a concrete state.
use contention_queue.Prelude.{ℕ, ◌≡◌, ◌≢◌, refl, true, Option, none, some, arith, update}
use contention_queue.World.{Pc, exclusive}
use contention_queue.System.{Move}
use contention_queue.Process.{process, lock_and_process}
use contention_queue.Invariant.{has_front, is_waiting}
use contention_queue.Order.History.{History-Reach}
use contention_queue.Schedule.{run}
use contention_queue.Safety.Peaceful.{is_running}
use contention_queue.Nested.{
  Nest, Goes, Nested, goes, here, in_callback, is_unserved, is_kept_out, Reach-Nested,
}
use contention_queue.Nested.Unserved.{nested_unserved}
use contention_queue.Nested.Hangs.{nested_call-hangs}
use contention_queue.Scenarios.{contended, counters, merge}

nothing_called : (j i : ℕ) → ◌≢◌ {A = Option ℕ} none (some i)
nothing_called j i e = cc

only_three : (j : ℕ) → update {A = Option ℕ} (λ _. none) 3 (some 0) j ≢ some 3
only_three j = ground arith

-- Threads 1 and 2 wait, and the callback of thread 0 executes activation 3, which makes a call.
abbrev reentered : (n : Nest counters) × Nested 1 n
unfolding run
reentered = (
  _,
  goes (Reach-Nested (History-Reach contended.history))
      (Goes.enters 0 3 refl (λ k. nothing_called k 0) refl refl),
)

abbrev reentered_calls : (n : Nest counters) × Nested 1 n
unfolding run
reentered_calls = (_, goes reentered.1 (Goes.moves 3 only_three (Move.calls 40 merge)))

abbrev reentered_locks : (n : Nest counters) × Nested 1 n
unfolding run lock_and_process
reentered_locks = (_, goes reentered_calls.1 (Goes.moves 3 only_three (Move.locks refl)))

reentered_pc : reentered_locks.0.system.pc 3 ≡ Pc.entering 40 merge
unfolding run lock_and_process
reentered_pc = refl

nested_unserved_example :
    (is_unserved (reentered_locks.0.system.pc 3) ≡ true)
    × (is_running (reentered_locks.0.system.pc 0) ≡ true
        → is_kept_out (reentered_locks.0.system.pc 3) ≡ true)
    × (in_callback (reentered_locks.0.system.pc 0) ≡ true)
    × (reentered_locks.0.caller 0 ≡ none)
    × ((k l : ℕ) → reentered_locks.0.caller l ≡ some k → (k ≡ 0) × (l ≡ 3))
unfolding run lock_and_process
nested_unserved_example = nested_unserved 0 3 reentered_locks.1 refl

-- The state in which the call has been made.
abbrev hung : Nest counters
unfolding run lock_and_process
hung =
    let (w, p) = process 1 3 reentered_locks.0.system.world 40 merge in
    record (reentered_locks.0) {
      system = record { world = w; pc = update reentered_locks.0.system.pc 3 p };
    }

nested_call-hangs_example :
    (is_waiting (hung.system.pc 3) ≡ true)
    × (hung.caller 3 ≡ some 0)
    × (hung.system.pc 0 ≡ reentered_locks.0.system.pc 0)
    × ((k : ℕ) → has_front (hung.system.pc k) ≡ true → k ≡ 0)
    × ((exclusive hung.system.world).front_locked ≡ true)
    × ((k : ℕ)
        → is_waiting (reentered_locks.0.system.pc k) ≡ true
        → is_waiting (hung.system.pc k) ≡ true)
unfolding run lock_and_process
nested_call-hangs_example = nested_call-hangs 0 3 40 merge reentered_locks.1 refl refl here
