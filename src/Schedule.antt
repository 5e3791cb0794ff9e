-- ===== src/Schedule.antt =====
-- Reachable states by evaluation: the threads move in a given order.
use contention_queue.Prelude.{
  ℕ, inl, inr, Option, none, some, List, [], ◌∷◌, Option-cases, Bool-cases, ℕ_discrete,
}
use contention_queue.Interface.{Client, Callback, ProcessTask, PanicOptions}
use contention_queue.Poisoning.{unwrap_poison, ignore_poison, lock, drop_guard, unwind_guard}
use contention_queue.TaskState
use contention_queue.TaskState.{
  wait, notify_one, wake_front_task, wake_front_task_panicking, wait_until_at_front,
}
use contention_queue.Handle
use contention_queue.Queue.{
  assert_mutex_good, new_with_options, try_acquire_front_fast, push_task, pop_task, wait_result,
  queue_poison_panics, mutex_poison_panics,
}
use contention_queue.Run.{run_callback, re_lock}
use contention_queue.World.{
  World, set_mutex, Pc, idle, guarded, calling, entering, waiting, running, unlocked, settling,
  failing, returned, panicked,
}
use contention_queue.Process.{
  lock_and_process, process, try_process_unchecked, start_processing, start_waiting, after_wait,
  dispatch, unwind, resume, hand_over, settle, fail, clear_queue_poison,
}
use contention_queue.Process.Branches.{Outcome-cases}
use contention_queue.System.{System, Move}
use contention_queue.Order.History.{History, begins, continues}

-- What a thread does next where client code chooses.
pub data Choice (c : Client) : Type 0 where
  goes_on : Choice c
  calls : c.Value → ProcessTask c → Choice c
  locks : Choice c
  panics : Choice c
  re_locks : Option c.Output → Choice c
  passes : c.Value → ProcessTask c → Choice c
  clears_mutex : Choice c
  clears_queue : Choice c
  repeats : Callback c → Choice c

module _ {c : Client} (addr i : ℕ) (w : World c) where
  abbrev pub Next : Pc c → Type 0
  Next p = Option ((w' : World c) × (p' : Pc c) × Move addr i w p w' p')

  wake : (task : ProcessTask c) → Next (waiting task)
  unfolding Option-cases Bool-cases
  wake task = elim (Option-cases w.mutex.holder) [
    | inr _ ↦ none
    | inl free ↦ elim (Option-cases (w.frames i)) [
      | inl _ ↦ none
      | inr (s, live) ↦ elim (Bool-cases s.condvar.blocked) [
        | inl _ ↦ none
        | inr awake ↦ elim (Option-cases (wait_until_at_front s)) [
          | inl n ↦ some (_, _, Move.waits_again free live awake n)
          | inr (b, turn) ↦
              elim (Option-cases (resume i (set_mutex (ignore_poison (lock i w.mutex)) w) task b)) [
                | inl _ ↦ none
                | inr (r, e) ↦ some (r.0, r.1, Move.resumes free live awake turn e)
              ]
        ]
      ]
    ]
  ]

  go_on : (p : Pc c) → Next p
  unfolding wake Option-cases
  go_on (calling v task) = elim (Option-cases w.mutex.holder) [
    | inl free ↦ some (_, _, Move.locks free)
    | inr _ ↦ none
  ]
  go_on (entering v task) = some (_, _, Move.enters)
  go_on (waiting task) = wake task
  go_on (running h k) = some (_, _, Move.runs)
  go_on (settling result) = elim (Option-cases (settle w result)) [
    | inl _ ↦ none
    | inr (r, e) ↦ some (r.0, r.1, Move.settles e)
  ]
  go_on failing = elim (Option-cases w.mutex.holder) [
    | inr _ ↦ none
    | inl free ↦ elim (Option-cases (fail i w)) [
      | inl _ ↦ none
      | inr (r, e) ↦ some (r.0, r.1, Move.fails free e)
    ]
  ]
  go_on (returned result) = some (_, _, Move.drops)
  go_on guarded = some (_, _, Move.client_unlock)
  go_on panicked = some (_, _, Move.catches)
  go_on p = none

  clear : Next idle
  unfolding Option-cases Outcome-cases
  clear = elim (Option-cases w.mutex.holder) [
    | inr _ ↦ none
    | inl free ↦ elim (Outcome-cases (clear_queue_poison addr i w)) [
      | inl _ ↦ none
      | inr (w', e) ↦ some (w', idle, Move.clears free e)
    ]
  ]

  choose : Choice c → (p : Pc c) → Next p
  unfolding go_on clear Option-cases
  choose (calls v task) idle = some (_, _, Move.calls v task)
  choose locks idle = elim (Option-cases w.mutex.holder) [
    | inl free ↦ some (_, _, Move.client_lock free)
    | inr _ ↦ none
  ]
  choose (passes v task) guarded = some (_, _, Move.passes_guard v task)
  choose (repeats k) (running h Callback.again) = some (_, _, Move.repeats k)
  choose clears_mutex idle = some (_, _, Move.client_clear)
  choose clears_queue idle = clear
  choose panics guarded = some (_, _, Move.client_panic)
  choose (re_locks output) (unlocked h k) = elim (Option-cases w.mutex.holder) [
    | inl free ↦ some (_, _, Move.re_locks output free)
    | inr _ ↦ none
  ]
  choose _ p = go_on p

pub record Run (c : Client) (addr : ℕ) : Type 0 where
  pub last : System c
  pub ins : List c.Value
  pub outs : List c.Value
  pub history : History addr last ins outs

module _ {c : Client} {addr : ℕ} where
  turn : Run c addr → ℕ × Choice c → Run c addr
  unfolding choose
  turn r (i, choice) = elim (choose addr i r.last.world choice (r.last.pc i)) [
    | none ↦ r
    | some (w', p', m) ↦ record { last = _; ins = _; outs = _; history = continues i r.history m }
  ]

  run_from : Run c addr → List (ℕ × Choice c) → Run c addr
  unfolding turn
  run_from r [] = r
  run_from r (x ∷ xs) = run_from (turn r x) xs

  unfoldable pub run : c.FrontState → c.MutexState → PanicOptions → List (ℕ × Choice c) → Run c addr
  unfolding run_from ℕ_discrete lock_and_process unwrap_poison ignore_poison lock drop_guard
      unwind_guard clear_queue_poison process assert_mutex_good new_with_options
      try_process_unchecked try_acquire_front_fast start_processing start_waiting push_task pop_task
      wait_result after_wait dispatch unwind resume queue_poison_panics mutex_poison_panics
      run_callback re_lock hand_over settle fail TaskState.new wait notify_one wake_front_task
      wake_front_task_panicking wait_until_at_front Handle.new Handle.peek Handle.pop
      Handle.is_queue_poisoned Handle.clear_queue_poison
  run f m options =
      run_from (record { last = _; ins = []; outs = []; history = begins f m options })
