-- ===== src/Scenarios/Progress.antt =====
-- The theorems on what threads can come to, and on several mutexes, at concrete states.
use contention_queue.Prelude.{
  update-cases, ℕ, ◌≡◌, ◌≢◌, refl, false, none, some, Option, arith, inl, update,
}
use contention_queue.World.{Pc, exclusive, set_mutex}
use contention_queue.Poisoning.{ignore_poison, lock}
use contention_queue.Process.{process, lock_and_process}
use contention_queue.Mutexes.Mixed.{foreign_guard}
use contention_queue.System.{Reach, Move}
use contention_queue.Finish.{Finishes, AlwaysReturns, Calm}
use contention_queue.Ending.Served.{ComesToRest, all_served}
use contention_queue.Safety.Aliasing.{
  exclusive_unaliased, front_unaliased, refers_to_exclusive, refers_to_front,
}
use contention_queue.Mutexes.{Threads, Turns, begin, goes, turns, moves, seen, put, view}
use contention_queue.Mutexes.Seen.{one_system, front_exclusion_across}
use contention_queue.Queue.{new_with_options, push_task}
use contention_queue.Order.History.{History-Reach}
use contention_queue.Schedule.{run}
use contention_queue.Scenarios.{contended, entered, counters, merge, merge_next, options}

merge-popped : (v : ℕ) (o : Option ℕ) → Finishes {c = counters} (merge_next v o)
merge-popped v none = tt
merge-popped v (some x) = tt

merge-returns : AlwaysReturns merge
merge-returns v o o' = merge-popped v o'

update_calm :
    (i : ℕ) (p : Pc counters) (pc : ℕ → Pc counters)
    → Calm p
    → ((j : ℕ) → Calm (pc j))
    → (j : ℕ) → Calm (update pc i p j)
update_calm i p pc now before = update-cases pc i (λ j q. Calm q) p now (λ j ne. before j)

contended_calm : (j : ℕ) → Calm (contended.last.pc j)
unfolding run
contended_calm = update_calm 2 _ _ merge-returns (
    update_calm 2 _ _ merge-returns (
      update_calm 2 _ _ merge-returns (
        update_calm 1 _ _ merge-returns (
          update_calm 1 _ _ merge-returns (
            update_calm 1 _ _ merge-returns (
              update_calm 0 _ _ (λ o. merge-popped 10)
                (update_calm 0 _ _ (merge-returns 10) (
                  update_calm 0 _ _ merge-returns
                    (update_calm 0 _ _ merge-returns (λ j. tt))))))))))

all_served_example : ComesToRest 1 contended.last
unfolding run
all_served_example = all_served (History-Reach contended.history) contended_calm (λ j e. cc)

abbrev thread : ℕ
thread = 0

abbrev address : ℕ
address = 1

exclusive_unaliased_example : refers_to_exclusive (contended.last.pc 1) ≡ false
unfolding run
exclusive_unaliased_example =
    exclusive_unaliased (History-Reach contended.history) 0 1 (Move.re_locks none refl) refl

front_unaliased_example : refers_to_front (entered.last.pc 1) ≡ false
unfolding run
front_unaliased_example = front_unaliased (History-Reach entered.history) 0 1 Move.enters refl

-- Thread 1 turns to the mutex at address 2; thread 0 calls with the one at address 1.
abbrev apart : Threads counters
apart = record {
  cq = new_with_options 0 options;
  mutexes = λ _. record { holder = none; is_poisoned = false; inner = 0 };
  frames = λ _. none;
  pc = λ _. Pc.idle;
  uses = update (λ _. 1) 1 2;
}

abbrev called : Threads counters
called = put 0 (view 1 apart) (Pc.calling 10 merge) apart

one : (j : ℕ) → address ≢ 0
one j = omega arith

called_history : Turns called
called_history =
    goes (goes (begin 0 (λ _. 0) options (λ _. 1) one) (turns 1 2 refl (omega arith)))
      (moves 0 (Move.calls 10 merge))

one_system_example : Reach 1 (seen 1 called)
unfolding run
one_system_example = one_system 1 called_history (omega arith) (inl refl)

front_exclusion_across_example : (thread ≡ thread) × (address ≡ address)
unfolding run
front_exclusion_across_example =
    front_exclusion_across 0 0
      (goes (goes called_history (moves 0 (Move.locks refl))) (moves 0 Move.enters)) refl refl

-- Thread 0 runs its callback with mutex 1, and thread 1 has locked mutex 2.
abbrev two_guards : Threads counters
two_guards =
    let entering =
      put 0 (lock_and_process 0 (view 1 called) 10 merge).0 (Pc.entering 10 merge) called in
    let x = process 1 0 (view 1 entering) 10 merge in
    let running = put 0 x.0 x.1 entering in
    put 1 (set_mutex (ignore_poison (lock 1 (running.mutexes 2))) (view 2 running)) Pc.guarded
      running

two_guards_history : Turns two_guards
unfolding run
two_guards_history =
    goes (goes (goes called_history (moves 0 (Move.locks refl))) (moves 0 Move.enters))
      (moves 1 (Move.client_lock refl))

foreign_guard_example :
    let (w, p) = process 1 1 (view 2 two_guards) 20 merge in
    (exclusive w ≡ push_task 1 20 two_guards.cq.mutex_exclusive)
    × (p ≡ Pc.waiting merge)
    × (two_guards.uses 1 ≢ two_guards.uses 0)
    × ((two_guards.mutexes 1).holder ≡ some 0)
unfolding run
foreign_guard_example = foreign_guard 1 0 20 merge two_guards_history refl refl
