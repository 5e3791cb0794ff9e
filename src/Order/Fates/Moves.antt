-- ===== src/Order/Fates/Moves.antt =====
-- What a move decides agrees with the queue and with the place of the thread.
use contention_queue.Prelude.{
  ℕ, ◌≡◌, ap, false, true, Bool, Option, none, some, List, arith, update_self, if-cases,
}
use contention_queue.Interface.{Client, Callback, ProcessTask}
use contention_queue.Poisoning.{Outcome, value, panics}
use contention_queue.TaskState.{TaskState}
use contention_queue.Task.{ErasedTask}
use contention_queue.QueueState.{MutexExclusive}
use contention_queue.Handle
use contention_queue.Handle.{QueueHandle}
use contention_queue.Queue.{wait_result, queue_poison_panics}
use contention_queue.World.{World, Pc, exclusive, set_exclusive, entering, waiting, running}
use contention_queue.Process.{unwind, after_wait, dispatch}
use contention_queue.Process.Resume.{after_wait-cases}
use contention_queue.Run.{run_callback, answer, unlock}
use contention_queue.Shape.{owners, owns, Distinct}
use contention_queue.Order.Change.{QueueChange, same, joined, left, emptied}
use contention_queue.Order.Fates.{Fate, Mark, Marks, Knows, reaches, uses_handle}
use contention_queue.Order.Fates.Marked.{pop-Marks}

module _ {c : Client} where
  -- The places from which a move may change the queue.
  abbrev pub queues : Pc c → Bool
  queues (entering v task) = true
  queues (waiting task) = true
  queues (running h k) = true
  queues _ = false

  pub Change-same :
      {i : ℕ} {p : Pc c} {f : ℕ → Option TaskState} {q q' : List (ErasedTask c.Value)}
      → QueueChange i p f q q'
      → queues p ≡ false
      → q' ≡ q
  Change-same (same e) plain = e
  Change-same (joined v task at e) plain = absurd (ground (arith, plain, ap queues at))
  Change-same (left t task s at live turn e) plain = absurd (ground (arith, plain, ap queues at))
  Change-same (emptied h k t at e eq) plain = absurd (ground (arith, plain, ap queues at))

  -- A woken thread without a value has lost it to another.
  pub after_wait-Knows :
      (i : ℕ) (fates : ℕ → Fate) (w : World c) (task : ProcessTask c) (o : Option c.Value)
      (b : Bool)
      → Mark i (fates i) o
      → let r = after_wait w task (wait_result o b) in Knows i (reaches i r.1 fates i) r.1
  unfolding after_wait dispatch wait_result unwind
  after_wait-Knows i fates w task (some v) b mark =
      after_wait-cases (λ r. Knows i (reaches i r.1 fates i) r.1) w task (some v) b tt
        (λ _ _. update_self fates i Fate.ran) (λ r e. absurd (ground arith))
  after_wait-Knows i fates w task none true taken =
      if-cases (λ (r : World c × Pc c). Knows i (reaches i r.1 fates i) r.1)
        (queue_poison_panics w.cq.options (exclusive w)) (λ _. tt) (λ _. taken)
  after_wait-Knows i fates w task none false taken =
      if-cases (λ (r : World c × Pc c). Knows i (reaches i r.1 fates i) r.1)
        (queue_poison_panics w.cq.options (exclusive w)) (λ _. tt) (λ _. taken)

  pub run-Knows :
      (i : ℕ) (fate : Fate) (w : World c) (h : QueueHandle) (k : Callback c)
      → fate ≡ Fate.ran
      → Knows i fate (run_callback w h k).1
  unfolding run_callback unlock
  run-Knows i fate w h (Callback.peek k) e = go (Handle.peek h (exclusive w))
    where
      go : (x : Outcome (Option c.Value)) → Knows i fate (answer w h k x).1
      go (value x) = e
      go panics = tt
  run-Knows i fate w h (Callback.pop k) e =
      go (set_exclusive (Handle.pop h (exclusive w)).2 w) (Handle.pop h (exclusive w)).1
        (Handle.pop h (exclusive w)).0
    where
      go :
          (w : World c) (h : QueueHandle) (x : Outcome (Option c.Value))
          → Knows i fate (answer w h k x).1
      go w h (value x) = e
      go w h panics = tt
  run-Knows i fate w h Callback.panic e = tt
  run-Knows i fate w h _ e = e

  pub run-Marks :
      (i : ℕ) (fates : ℕ → Fate) (w : World c) (h : QueueHandle) (k : Callback c)
      → Distinct (owners (exclusive w).queue)
      → owns i (owners (exclusive w).queue) ≡ false
      → Marks fates (exclusive w).queue
      → Marks (uses_handle i w h k fates) (exclusive (run_callback w h k).0).queue
  unfolding run_callback unlock Handle.clear_queue_poison
  run-Marks i fates w h (Callback.pop k) apart out marks =
      go (Handle.pop h (exclusive w)).2 (Handle.pop h (exclusive w)).1
        (Handle.pop h (exclusive w)).0 (pop-Marks fates i h (exclusive w) apart out marks)
    where
      go :
          (q : MutexExclusive c.Value) (h' : QueueHandle) (x : Outcome (Option c.Value))
          → Marks (uses_handle i w h (Callback.pop k) fates) q.queue
          → Marks
              (uses_handle i w h (Callback.pop k) fates)
              (exclusive (answer (set_exclusive q w) h' k x).0).queue
      go q h' (value x) m = m
      go q h' panics m = m
  run-Marks i fates w h (Callback.peek k) apart out marks = go (Handle.peek h (exclusive w))
    where
      go : (x : Outcome (Option c.Value)) → Marks fates (exclusive (answer w h k x).0).queue
      go (value x) = marks
      go panics = marks
  run-Marks i fates w h _ apart out marks = marks
