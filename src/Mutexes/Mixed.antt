-- ===== src/Mutexes/Mixed.antt =====
-- `process` of src/queue.rs with a guard of another mutex than the one that it is given: the code
-- checks the address of the mutex alone.
use contention_queue.Prelude.{
  ℕ, ◌≡◌, ◌≢◌, refl, sym, subst, ap, ◌∙◌, inr, true, some, arith, some_injective,
}
use contention_queue.Interface.{Client, Callback, ProcessTask}
use contention_queue.Handle.{QueueHandle}
use contention_queue.Queue.{push_task}
use contention_queue.Queue.Address.{assert_mutex_good-returns}
use contention_queue.World.{World, Pc, exclusive, guarded, waiting, running}
use contention_queue.Process.{process, start_waiting}
use contention_queue.Process.Paths.{process-paths}
use contention_queue.System.{Reach}
use contention_queue.Invariant.{has_front, holds_lock}
use contention_queue.Invariant.Moves.{Reach-Inv}
use contention_queue.Safety.{front_exclusion}
use contention_queue.Mutexes.{Threads, Turns, view, seen}
use contention_queue.Mutexes.Seen.{seen_self, Turns-Separate, front_exclusion_across}

-- In every state that threads reach with any number of mutexes, guards and mutexes not mixed so far:
-- while the callback of thread `j` runs, and with it a reference to the state behind the mutex, a call
-- of `process` by a thread `i` that holds a guard of its own, and that passes this guard with the
-- mutex of thread `j`, is let through and pushes its task on the queue, although the guard is one of
-- another mutex and thread `j` holds the lock.
pub foreign_guard :
    {c : Client} {s : Threads c} (i j : ℕ) {h : QueueHandle} {k : Callback c} (v : c.Value)
    (task : ProcessTask c)
    → Turns s
    → s.pc i ≡ guarded
    → s.pc j ≡ running h k
    → let (w, p) = process (s.uses j) i (view (s.uses i) s) v task in
      (exclusive w ≡ push_task i v s.cq.mutex_exclusive)
      × (p ≡ waiting task)
      × (s.uses i ≢ s.uses j)
      × ((s.mutexes (s.uses j)).holder ≡ some j)
unfolding start_waiting
foreign_guard {c} {s} i j {h} {k} v task r own runs = (pushed.0, pushed.1, apart, locked)
  where
    mine : s.uses j ≡ s.cq.mutex_address
    mine = (front_exclusion_across j j r (ap has_front runs) (ap has_front runs)).1

    one : Reach (s.uses j) (seen (s.uses j) s)
    one = let inv = Turns-Separate r in inv.reached (s.uses j) (inv.real j) (inr (sym mine))

    at : (seen (s.uses j) s).pc j ≡ running h k
    at = seen_self s j ∙ runs

    locked : (s.mutexes (s.uses j)).holder ≡ some j
    locked = (Reach-Inv one).lock.locked j (ap holds_lock at)

    taken : s.cq.mutex_exclusive.front_locked ≡ true
    taken = (front_exclusion one j j (ap has_front at) (ap has_front at)).1

    apart : s.uses i ≢ s.uses j
    apart e =
        let there = subst (λ a. (seen a s).pc i ≡ guarded) e (seen_self s i ∙ own) in
        let held = (Reach-Inv one).lock.locked i (ap holds_lock there) in
        let same = some_injective i j (sym held ∙ locked) in
        absurd (ground (arith, own, runs, ap s.pc same))

    Pushed : World c × Pc c → Type 0
    Pushed x = (exclusive x.0 ≡ push_task i v s.cq.mutex_exclusive) × (x.1 ≡ waiting task)

    pushed : Pushed (process (s.uses j) i (view (s.uses i) s) v task)
    pushed =
        let good = assert_mutex_good-returns s.cq.mutex_address (s.uses j) (inr (sym mine)) in
        process-paths Pushed i (view (s.uses i) s) v task (s.uses j)
          (λ refused. absurd (ground (arith, good, refused))) (λ a e l. (refl, refl))
          (λ a e free. absurd (ground (arith, taken, free)))
          (λ a e free. absurd (ground (arith, taken, free)))
