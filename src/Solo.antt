-- ===== src/Solo.antt =====
-- A call on a queue that nobody else uses, against a plain evaluation of its callback.
use contention_queue.Prelude.{
  ℕ, ◌≡◌, refl, sym, subst, Bool, true, false, Option, none, some, [], arith,
}
use contention_queue.Interface.{Client, Callback, ProcessTask, PanicOptions, ProcessResult}
use contention_queue.Poisoning.{value, unwrap_poison, ignore_poison, lock, drop_guard}
use contention_queue.TaskState.{TaskState}
use contention_queue.Handle
use contention_queue.Handle.{QueueHandle}
use contention_queue.Queue.{assert_mutex_good, try_acquire_front_fast, mutex_poison_panics}
use contention_queue.World.{World, Pc, calling, running, settling, returned}
use contention_queue.Process.{
  process, lock_and_process, try_process_unchecked, start_processing, settle, hand_over,
}
use contention_queue.Run.{run_callback, unlock, re_lock}
use contention_queue.Ending.{Advances}
use contention_queue.System.{Move, locks, enters, runs, re_locks, settles}

pub record Ran (c : Client) : Type 0 where
  pub result : c.Return
  pub front : c.FrontState
  pub inner : c.MutexState
  pub queue_poisoned : Bool

-- What a callback computes alone: no value waits, and each closure of `unlocked` returns `output`.
abbrev pub evaluate :
    {c : Client}
    → Option c.Output
    → Callback c
    → c.FrontState
    → c.MutexState
    → Bool
    → Option (Ran c)
evaluate output (Callback.return r) f m b =
    some (record { result = r; front = f; inner = m; queue_poisoned = b })
evaluate output Callback.panic f m b = none
evaluate output Callback.again f m b = none
evaluate output (Callback.peek k) f m b = evaluate output (k none) f m b
evaluate output (Callback.pop k) f m b = evaluate output (k none) f m b
evaluate output (Callback.mutex_state k) f m b = evaluate output (k m) f m b
evaluate output (Callback.set_mutex_state n k) f m b = evaluate output k f n b
evaluate output (Callback.front_state k) f m b = evaluate output (k f) f m b
evaluate output (Callback.set_front_state g k) f m b = evaluate output k g m b
evaluate output (Callback.unlocked k) f m b = evaluate output (k output) f m b
evaluate output (Callback.is_queue_poisoned k) f m b = evaluate output (k b) f m b
evaluate output (Callback.clear_queue_poison k) f m b = evaluate output k f m false

-- Moves of thread `i` alone, each of which goes on with its call.
pub data Alone {c : Client} (addr i : ℕ) : World c → Pc c → World c → Pc c → Type 0 where
  there : {w : World c} {p : Pc c} → Alone addr i w p w p
  first :
      {w w' w'' : World c} {p p' p'' : Pc c} (m : Move addr i w p w' p')
      → Advances m
      → Alone addr i w' p' w'' p''
      → Alone addr i w p w'' p''

Alone-append :
    {c : Client} {addr i : ℕ} {w w' w'' : World c} {p p' p'' : Pc c}
    → Alone addr i w p w' p'
    → Alone addr i w' p' w'' p''
    → Alone addr i w p w'' p''
Alone-append there more = more
Alone-append (first m on rest) more = first m on (Alone-append rest more)

module _ {c : Client} (addr i : ℕ) (options : PanicOptions) (frames : ℕ → Option TaskState) where
  -- A state without waiting tasks and without mutex poison.
  abbrev pub quiet : ℕ → Option ℕ → Bool → c.FrontState → c.MutexState → Bool → World c
  quiet address holder front_locked f m b = record {
    cq = record {
      mutex_address = address;
      options = options;
      front_exclusive = record { front_state = f };
      mutex_exclusive = record { front_locked = front_locked; queue_poisoned = b; queue = [] };
    };
    mutex = record { holder = holder; is_poisoned = false; inner = m };
    frames = frames;
  }

  runs_alone :
      (output : Option c.Output) (h : QueueHandle) (k : Callback c) (f : c.FrontState)
      (m : c.MutexState) (b : Bool) (r : Ran c)
      → evaluate output k f m b ≡ some r
      → Alone addr i
          (quiet addr (some i) true f m b)
          (running h k)
          (quiet addr (some i) true r.front r.inner r.queue_poisoned)
          (settling (ProcessResult.processed r.result))
  unfolding run_callback unlock re_lock drop_guard ignore_poison lock Handle.peek Handle.pop
      Handle.is_queue_poisoned Handle.clear_queue_poison
  runs_alone o h (Callback.return x) f m b r e =
      let same : record { result = x; front = f; inner = m; queue_poisoned = b } ≡ r = cc in
      subst
        (λ (y : Ran c).
          Alone addr i (quiet addr (some i) true f m b) (running h (Callback.return x))
            (quiet addr (some i) true y.front y.inner y.queue_poisoned)
            (settling (ProcessResult.processed y.result)))
        same (first runs tt there)
  runs_alone o h Callback.panic f m b r e = absurd (ground arith)
  runs_alone o h Callback.again f m b r e = absurd (ground arith)
  runs_alone o h (Callback.peek k) f m b r e = first runs tt (runs_alone o h (k none) f m b r e)
  runs_alone o h (Callback.pop k) f m b r e = first runs tt (runs_alone o h (k none) f m b r e)
  runs_alone o h (Callback.mutex_state k) f m b r e = first runs tt (runs_alone o h (k m) f m b r e)
  runs_alone o h (Callback.set_mutex_state n k) f m b r e =
      first runs tt (runs_alone o h k f n b r e)
  runs_alone o h (Callback.front_state k) f m b r e = first runs tt (runs_alone o h (k f) f m b r e)
  runs_alone o h (Callback.set_front_state g k) f m b r e =
      first runs tt (runs_alone o h k g m b r e)
  runs_alone o h (Callback.unlocked k) f m b r e =
      first runs tt (first (re_locks o refl) tt (runs_alone o h (k o) f m b r e))
  runs_alone o h (Callback.is_queue_poisoned k) f m b r e =
      first runs tt (runs_alone o h (k b) f m b r e)
  runs_alone o h (Callback.clear_queue_poison k) f m b r e =
      first runs tt (runs_alone o h k f m false r e)

  enters_alone :
      (address : ℕ) (v : c.Value) (task : ProcessTask c) (f : c.FrontState) (m : c.MutexState)
      (b : Bool)
      → assert_mutex_good address addr ≡ value addr
      → process addr i (quiet address (some i) false f m b) v task
        ≡ (quiet addr (some i) true f m b, running Handle.new (task v))
  unfolding process try_process_unchecked try_acquire_front_fast start_processing
      mutex_poison_panics
  enters_alone address v task f m b good = ground arith

  -- The end of the call, after its callback.
  ends_alone :
      (r : Ran c)
      → Alone addr i
          (quiet addr (some i) true r.front r.inner r.queue_poisoned)
          (settling (ProcessResult.processed r.result))
          (quiet addr (some i) false r.front r.inner r.queue_poisoned)
          (returned (ProcessResult.processed r.result))
  unfolding settle hand_over
  ends_alone r = first (settles refl) tt there

  -- If no task waits, nobody holds the lock or the front permission, the mutex is not poisoned and
  -- its address is accepted, and the callback of the task, given the value, would alone compute `r`,
  -- then a thread that has called `lock_and_process` with this value and this task gets, by moves of
  -- its own that go on with this call, to where the call returns `Processed` with the result of `r`;
  -- then the front and the mutex hold the states of `r`, the poison flag of the queue is that of `r`,
  -- the front permission is released and the lock is still held by the guard that the call is about
  -- to drop. Each closure of `unlocked` returns `output` there, and the callback does not loop.
  pub call_alone :
      (output : Option c.Output) (address : ℕ) (v : c.Value) (task : ProcessTask c)
      (f : c.FrontState) (m : c.MutexState) (b : Bool) (r : Ran c)
      → assert_mutex_good address addr ≡ value addr
      → evaluate output (task v) f m b ≡ some r
      → Alone addr i
          (quiet address none false f m b)
          (calling v task)
          (quiet addr (some i) false r.front r.inner r.queue_poisoned)
          (returned (ProcessResult.processed r.result))
  unfolding lock_and_process unwrap_poison lock
  call_alone output address v task f m b r good e = first (locks refl) tt (
      first enters tt (
        subst
          (λ (x : World c × Pc c).
            Alone addr i x.0 x.1 (quiet addr (some i) false r.front r.inner r.queue_poisoned)
              (returned (ProcessResult.processed r.result)))
          (sym (enters_alone address v task f m b good))
          (Alone-append (runs_alone output Handle.new (task v) f m b r e) (ends_alone r))))
