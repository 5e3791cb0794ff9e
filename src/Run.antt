-- ===== src/Run.antt =====
-- The call of `task.process` in `try_process_unchecked` of src/queue.rs, with the methods of
-- `QueueHandle` in src/queue_handle.rs that the callback uses, one use at a time.
use contention_queue.Prelude.{ℕ, Option}
use contention_queue.Interface.{Client, Callback, ProcessResult}
use contention_queue.Poisoning.{Outcome, value, panics, ignore_poison, lock, drop_guard}
use contention_queue.Handle.{QueueHandle}
use contention_queue.Handle
use contention_queue.World.{
  World, exclusive, set_exclusive, set_mutex, Pc, running, unlocked, settling, failing,
}

module _ {c : Client} where
  -- A panic that leaves the callback: the guard is in a `MaybeUninit`, so it is not dropped.
  abbrev pub unwind_callback : World c → World c × Pc c
  unwind_callback w = (w, failing)

  abbrev pub answer :
      World c
      → QueueHandle
      → (Option c.Value → Callback c)
      → Outcome (Option c.Value)
      → World c × Pc c
  answer w h k (value o) = (w, running h (k o))
  answer w h k panics = unwind_callback w

  abbrev pub set_front_state : c.FrontState → World c → World c
  set_front_state f w = record w {
    cq = record (w.cq) { front_exclusive = record { front_state = f } };
  }

  -- `ReLock::new` of `unlocked`, and its `drop` after the closure: both keep the handle.
  unfoldable pub unlock : World c → QueueHandle → (Option c.Output → Callback c) → World c × Pc c
  unlock w h k = (set_mutex (drop_guard w.mutex) w, unlocked h k)

  unfoldable pub re_lock :
      ℕ → World c → QueueHandle → (Option c.Output → Callback c) → Option c.Output → World c × Pc c
  re_lock i w h k output = (set_mutex (ignore_poison (lock i w.mutex)) w, running h (k output))

  unfoldable pub run_callback : World c → QueueHandle → Callback c → World c × Pc c
  unfolding unlock
  run_callback w h (Callback.return r) = (w, settling (ProcessResult.processed r))
  run_callback w h Callback.panic = unwind_callback w
  run_callback w h Callback.again = (w, running h Callback.again)
  run_callback w h (Callback.peek k) = answer w h k (Handle.peek h (exclusive w))
  run_callback w h (Callback.pop k) =
      let (popped, h', q) = Handle.pop h (exclusive w) in answer (set_exclusive q w) h' k popped
  run_callback w h (Callback.mutex_state k) = (w, running h (k w.mutex.inner))
  run_callback w h (Callback.set_mutex_state m k) =
      (set_mutex (record (w.mutex) { inner = m }) w, running h k)
  run_callback w h (Callback.front_state k) = (w, running h (k w.cq.front_exclusive.front_state))
  run_callback w h (Callback.set_front_state f k) = (set_front_state f w, running h k)
  run_callback w h (Callback.unlocked k) = unlock w h k
  run_callback w h (Callback.is_queue_poisoned k) =
      (w, running h (k (Handle.is_queue_poisoned (exclusive w))))
  run_callback w h (Callback.clear_queue_poison k) =
      (set_exclusive (Handle.clear_queue_poison (exclusive w)) w, running h k)
