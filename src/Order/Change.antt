-- ===== src/Order/Change.antt =====
-- How one move changes the list of queued tasks.
use contention_queue.Prelude.{
  ℕ, ◌≡◌, ◌≢◌, none, refl, sym, subst, ap, ◌∙◌, inl, inr, Option, some, List, [], ◌∷◌, ◌++◌,
  get_elem?, set, arith, Option-cases,
}
use contention_queue.Interface.{Client, Callback, ProcessTask}
use contention_queue.Poisoning.{Outcome, value, panics, ignore_poison, lock}
use contention_queue.TaskState.{
  TaskState, wait_until_at_front, wake_front_task, wake_front_task_panicking,
}
use contention_queue.Task.{ErasedTask, erase, take}
use contention_queue.QueueState.{MutexExclusive}
use contention_queue.Handle
use contention_queue.Handle.{QueueHandle}
use contention_queue.Queue.{push_task}
use contention_queue.World.{
  World, Pc, exclusive, set_exclusive, set_mutex, entering, waiting, running,
}
use contention_queue.Process.{process, start_waiting, unwind}
use contention_queue.Process.Paths.{process-paths, resume-paths}
use contention_queue.Process.Branches.{lock_and_process-cases}
use contention_queue.Process.HandOver.{HandedOver, settle-some, fail-some}
use contention_queue.Process.Flags.{is_queue_poisoned-Visited, clear_queue_poison-Visited}
use contention_queue.Run.{run_callback, answer, re_lock}
use contention_queue.System.{
  Move, locks, enters, resumes, runs, settles, fails, asks, clears, asks_unlocked, clears_unlocked,
}

-- Thread `i`, at `p`, changes the queue from `q` to `q'`.
pub data QueueChange {c : Client} (i : ℕ) (p : Pc c) (f : ℕ → Option TaskState)
    (q q' : List (ErasedTask c.Value)) : Type 0 where
  same : q' ≡ q → QueueChange i p f q q'
  joined :
      (v : c.Value) (task : ProcessTask c)
      → p ≡ entering v task
      → q' ≡ q ++ erase (record { state = i; value = some v }) ∷ []
      → QueueChange i p f q q'
  left :
      (t : ErasedTask c.Value) (task : ProcessTask c) (s : TaskState)
      → p ≡ waiting task
      → f i ≡ some s
      → wait_until_at_front s ≢ none
      → q ≡ t ∷ q'
      → QueueChange i p f q q'
  emptied :
      (h : QueueHandle) (k : Option c.Value → Callback c) (t : ErasedTask c.Value)
      → p ≡ running h (Callback.pop k)
      → get_elem? q h.next_idx ≡ some t
      → q' ≡ set q h.next_idx (take t).1
      → QueueChange i p f q q'

module _ {c : Client} (addr i : ℕ) (w : World c) where
  -- What a result does to the queue.
  abbrev Changes : Pc c → World c × Pc c → Type 0
  Changes p r = QueueChange i p w.frames (exclusive w).queue (exclusive r.0).queue

  process-change :
      (v : c.Value) (task : ProcessTask c) → Changes (entering v task) (process addr i w v task)
  unfolding start_waiting push_task unwind
  process-change v task =
      process-paths (Changes (entering v task)) i w v task addr (λ _. same refl)
        (λ a e l. joined v task refl refl) (λ a e l. same refl) (λ a e l. same refl)

  pop-change :
      (h : QueueHandle) (k : Option c.Value → Callback c)
      → QueueChange i
          (running h (Callback.pop k))
          w.frames
          (exclusive w).queue
          (Handle.pop h (exclusive w)).2.queue
  unfolding Handle.pop
  pop-change h k = elim (Option-cases (get_elem? (exclusive w).queue h.next_idx)) [
    | inl e ↦ same (ground arith)
    | inr (t, e) ↦ emptied h k t refl e (ground arith)
  ]

  answer-change :
      (p : Pc c) (q : MutexExclusive c.Value) (h : QueueHandle) (k : Option c.Value → Callback c)
      (o : Outcome (Option c.Value))
      → QueueChange i p w.frames (exclusive w).queue q.queue
      → Changes p (answer (set_exclusive q w) h k o)
  answer-change p q h k (value o) change = change
  answer-change p q h k panics change = change

  run-change : (h : QueueHandle) (k : Callback c) → Changes (running h k) (run_callback w h k)
  unfolding run_callback Handle.clear_queue_poison
  run-change h (Callback.pop k) =
      answer-change (running h (Callback.pop k)) (Handle.pop h (exclusive w)).2
        (Handle.pop h (exclusive w)).1 k (Handle.pop h (exclusive w)).0 (pop-change h k)
  run-change h (Callback.peek k) =
      answer-change (running h (Callback.peek k)) (exclusive w) h k (Handle.peek h (exclusive w))
        (same refl)
  run-change h _ = same refl

  HandedOver-change :
      (p : Pc c) (wake : TaskState → TaskState) {w₁ w₂ : World c}
      → (exclusive w₁).queue ≡ (exclusive w).queue
      → HandedOver wake w₁ w₂
      → QueueChange i p w.frames (exclusive w).queue (exclusive w₂).queue
  HandedOver-change p wake e (inl (empty, eq)) = same (ap (λ x. (exclusive x).queue) eq ∙ e)
  HandedOver-change p wake e (inr (t, rest, s, first, live, eq)) =
      same (ap (λ x. (exclusive x).queue) eq ∙ e)

  pub Move-change :
      {w' : World c} {p p' : Pc c}
      → Move addr i w p w' p'
      → QueueChange i p w.frames (exclusive w).queue (exclusive w').queue
  unfolding unwind re_lock
  Move-change {p = p} (locks {v} {task} free) =
      lock_and_process-cases (Changes p) i w v task (same refl) (same refl)
  Move-change (enters {v} {task}) = process-change v task
  Move-change (runs {h} {k}) = run-change h k
  Move-change {p = p} (resumes {task} {s} {b} {r} free live awake turn e) =
      let w₁ : World c = set_mutex (ignore_poison (lock i w.mutex)) w in
      let turns : wait_until_at_front s ≢ none = λ n. ground arith in
      resume-paths (Changes p) i w₁ task b e (λ t rest q. left t task s refl live turns q)
        (λ t rest q v has. left t task s refl live turns q)
        (λ t rest q result. left t task s refl live turns q)
  Move-change {p = p} (settles {result} {r} e) =
      let (w₁, over, eq) = settle-some w result e in
      subst (Changes p) (sym eq) (HandedOver-change p wake_front_task refl over)
  Move-change {p = p} (fails {r} free e) =
      let (w₁, over, eq) = fail-some i w e in
      subst (Changes p) (sym eq) (HandedOver-change p wake_front_task_panicking refl over)
  Move-change (asks {r} free e) =
      same (ap (λ q. q.queue) (is_queue_poisoned-Visited addr i w r e).1.contents)
  Move-change (asks_unlocked {r} free e) =
      same (ap (λ q. q.queue) (is_queue_poisoned-Visited addr i w r e).1.contents)
  Move-change {w'} (clears free e) =
      same (ap (λ q. q.queue) (clear_queue_poison-Visited addr i w w' e).contents)
  Move-change {w'} (clears_unlocked free e) =
      same (ap (λ q. q.queue) (clear_queue_poison-Visited addr i w w' e).contents)
  Move-change _ = same refl
