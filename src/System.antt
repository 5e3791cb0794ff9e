-- ===== src/System.antt =====
-- Threads that use one `ContentionQueue` with one mutex, interleaved in any order. A move is what a
-- thread does from one point where others can interfere to the next.
use contention_queue.Prelude.{ℕ, ◌≡◌, ◌≢◌, Bool, false, Option, none, some, update}
use contention_queue.Interface.{Client, Callback, ProcessTask, ProcessResult, PanicOptions}
use contention_queue.Poisoning.{value, panics, ignore_poison, lock, drop_guard, unwind_guard}
use contention_queue.TaskState.{TaskState, wait, notify_one, wait_until_at_front}
use contention_queue.Handle.{QueueHandle}
use contention_queue.Queue.{new_with_options, assert_mutex_good}
use contention_queue.World.{
  World, set_mutex, set_frames, Pc, idle, guarded, calling, entering, waiting, running, unlocked,
  settling, failing, returned, panicked,
}
use contention_queue.Process.{
  process, lock_and_process, resume, settle, fail, is_queue_poisoned, clear_queue_poison,
}
use contention_queue.Run.{run_callback, re_lock, set_front_state}

-- One move of thread `i`, whose calls pass the mutex at address `addr`.
pub data Move {c : Client} (addr i : ℕ) (w : World c) : Pc c → World c → Pc c → Type 0 where
  -- what client code does with the mutex, `Mutex::clear_poison` included
  client_lock :
      w.mutex.holder ≡ none
      → Move addr i w idle (set_mutex (ignore_poison (lock i w.mutex)) w) guarded
  client_write :
      (m : c.MutexState)
      → Move addr i w guarded (set_mutex (record (w.mutex) { inner = m }) w) guarded
  client_unlock : Move addr i w guarded (set_mutex (drop_guard w.mutex) w) idle
  client_panic : Move addr i w guarded (set_mutex (unwind_guard w.mutex) w) panicked
  client_clear : Move addr i w idle (set_mutex (record (w.mutex) { is_poisoned = false }) w) idle
  -- a call of `lock_and_process`, or of `process` with a guard of the mutex at `addr`
  calls : (v : c.Value) (task : ProcessTask c) → Move addr i w idle w (calling v task)
  passes_guard : (v : c.Value) (task : ProcessTask c) → Move addr i w guarded w (entering v task)
  locks :
      {v : c.Value} {task : ProcessTask c}
      → w.mutex.holder ≡ none
      → Move addr i w
          (calling v task)
          (lock_and_process i w v task).0
          (lock_and_process i w v task).1
  -- `mutex.lock()` may panic if the thread that calls it holds the lock, in code above this call;
  -- here, whichever number holds it
  lock_panics :
      {v : c.Value} {task : ProcessTask c}
      → w.mutex.holder ≢ none
      → Move addr i w (calling v task) w panicked
  enters :
      {v : c.Value} {task : ProcessTask c}
      → Move addr i w (entering v task) (process addr i w v task).0 (process addr i w v task).1
  -- `condvar.wait` may return without a notification
  wakes_spuriously :
      {task : ProcessTask c} {s : TaskState}
      → w.frames i ≡ some s
      → Move addr i w
          (waiting task)
          (set_frames (update w.frames i (some (notify_one s))) w)
          (waiting task)
  waits_again :
      {task : ProcessTask c} {s : TaskState}
      → w.mutex.holder ≡ none
      → w.frames i ≡ some s
      → s.condvar.blocked ≡ false
      → wait_until_at_front s ≡ none
      → Move addr i w
          (waiting task)
          (set_frames (update w.frames i (some (wait s))) w)
          (waiting task)
  resumes :
      {task : ProcessTask c} {s : TaskState} {b : Bool} {r : World c × Pc c}
      → w.mutex.holder ≡ none
      → w.frames i ≡ some s
      → s.condvar.blocked ≡ false
      → wait_until_at_front s ≡ some b
      → resume i (set_mutex (ignore_poison (lock i w.mutex)) w) task b ≡ some r
      → Move addr i w (waiting task) r.0 r.1
  runs :
      {h : QueueHandle} {k : Callback c}
      → Move addr i w (running h k) (run_callback w h k).0 (run_callback w h k).1
  -- the next round of a loop in a callback, or of one that does not end
  repeats :
      {h : QueueHandle} (k : Callback c) → Move addr i w (running h Callback.again) w (running h k)
  -- the closure of `unlocked` may use the front state, which the callback owns all the time
  writes_unlocked :
      {h : QueueHandle} {k : Option c.Output → Callback c} (f : c.FrontState)
      → Move addr i w (unlocked h k) (set_front_state f w) (unlocked h k)
  re_locks :
      {h : QueueHandle} {k : Option c.Output → Callback c} (output : Option c.Output)
      → w.mutex.holder ≡ none
      → Move addr i w (unlocked h k) (re_lock i w h k output).0 (re_lock i w h k output).1
  settles :
      {result : ProcessResult c.Return} {r : World c × Pc c}
      → settle w result ≡ some r
      → Move addr i w (settling result) r.0 r.1
  fails :
      {r : World c × Pc c}
      → w.mutex.holder ≡ none
      → fail i w ≡ some r
      → Move addr i w failing r.0 r.1
  -- the end of `lock_and_process` drops the guard; `process` gives it back to client code
  drops :
      {result : ProcessResult c.Return}
      → Move addr i w (returned result) (set_mutex (drop_guard w.mutex) w) idle
  gives_back : {result : ProcessResult c.Return} → Move addr i w (returned result) w guarded
  catches : Move addr i w panicked w idle
  -- a call that reads or clears the poison flag of the queue, before its `mutex.lock()`, which may
  -- wait, or panic as above; then the flag, from client code or in the closure of `unlocked`
  asserts :
      {a : ℕ}
      → assert_mutex_good w.cq.mutex_address addr ≡ value a
      → Move addr i w idle (record w { cq = record (w.cq) { mutex_address = a } }) idle
  asserts_unlocked :
      {h : QueueHandle} {k : Option c.Output → Callback c} {a : ℕ}
      → assert_mutex_good w.cq.mutex_address addr ≡ value a
      → Move addr i w
          (unlocked h k)
          (record w { cq = record (w.cq) { mutex_address = a } })
          (unlocked h k)
  asks :
      {r : Bool × World c}
      → w.mutex.holder ≡ none
      → is_queue_poisoned addr i w ≡ value r
      → Move addr i w idle r.1 idle
  clears :
      {w' : World c}
      → w.mutex.holder ≡ none
      → clear_queue_poison addr i w ≡ value w'
      → Move addr i w idle w' idle
  asks_unlocked :
      {h : QueueHandle} {k : Option c.Output → Callback c} {r : Bool × World c}
      → w.mutex.holder ≡ none
      → is_queue_poisoned addr i w ≡ value r
      → Move addr i w (unlocked h k) r.1 (unlocked h k)
  clears_unlocked :
      {h : QueueHandle} {k : Option c.Output → Callback c} {w' : World c}
      → w.mutex.holder ≡ none
      → clear_queue_poison addr i w ≡ value w'
      → Move addr i w (unlocked h k) w' (unlocked h k)
  refused : assert_mutex_good w.cq.mutex_address addr ≡ panics → Move addr i w idle w panicked

pub record System (c : Client) : Type 0 where
  pub world : World c
  pub pc : ℕ → Pc c

pub data Step {c : Client} (addr : ℕ) (s : System c) : System c → Type 0 where
  pick :
      (i : ℕ) {w : World c} {p : Pc c}
      → Move addr i s.world (s.pc i) w p
      → Step addr s (record { world = w; pc = update s.pc i p })

-- A new queue and a new mutex, with every thread in client code.
abbrev pub init : {c : Client} → c.FrontState → c.MutexState → PanicOptions → System c
init f m options = record {
  world = record {
    cq = new_with_options f options;
    mutex = record { holder = none; is_poisoned = false; inner = m };
    frames = λ _. none;
  };
  pc = λ _. idle;
}

pub data Reach {c : Client} (addr : ℕ) : System c → Type 0 where
  start :
      (f : c.FrontState) (m : c.MutexState) (options : PanicOptions) → Reach addr (init f m options)
  later : {s t : System c} → Reach addr s → Step addr s t → Reach addr t

-- The states that follow a given one.
pub data Steps {c : Client} (addr : ℕ) (s : System c) : System c → Type 0 where
  here : Steps addr s s
  next : {t u : System c} → Steps addr s t → Step addr t u → Steps addr s u

pub Reach-Steps :
    {c : Client} {addr : ℕ} {s t : System c} → Reach addr s → Steps addr s t → Reach addr t
Reach-Steps r here = r
Reach-Steps r (next steps st) = later (Reach-Steps r steps) st

pub Steps-append :
    {c : Client} {addr : ℕ} {s t u : System c} → Steps addr s t → Steps addr t u → Steps addr s u
Steps-append xs here = xs
Steps-append xs (next ys st) = next (Steps-append xs ys) st
