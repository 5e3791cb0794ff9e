-- ===== src/Safety/Poisoned.antt =====
-- What can poison a queue of src/queue.rs: the `Err` branch of `process_unchecked` sets the flag, and
-- a callback that panics does not get through it.
use contention_queue.Prelude.{
  update-cases, ℕ, ◌≡◌, refl, sym, subst, ap, ◌∙◌, true, false, Bool, Option, some, arith, inl, inr,
}
use contention_queue.Interface.{Client, Callback, PanicOptions, ProcessTask}
use contention_queue.Poisoning.{Outcome, value, panics, ignore_poison, lock}
use contention_queue.Handle
use contention_queue.Handle.{QueueHandle}
use contention_queue.Handle.Values.{pop-poisoned}
use contention_queue.Queue.{
  new_with_options, push_task, queue_poison_panics, mutex_poison_panics, wait_result,
}
use contention_queue.TaskState.{TaskState, wake_front_task}
use contention_queue.World.{World, Pc, exclusive, set_exclusive, set_mutex, failing}
use contention_queue.Process.{process, start_processing, start_waiting, after_wait, dispatch}
use contention_queue.Process.Branches.{
  lock_and_process-cases, try_process_unchecked-cases, process-cases,
}
use contention_queue.Process.Resume.{after_pop, resume-some}
use contention_queue.Process.HandOver.{settle-some, HandedOver}
use contention_queue.Process.Flags.{is_queue_poisoned-Visited, clear_queue_poison-Visited}
use contention_queue.Run.{run_callback, answer, unlock, re_lock}
use contention_queue.System.{
  System, Move, locks, enters, resumes, runs, settles, fails, asks, clears, asks_unlocked,
  clears_unlocked, Step, Steps, here, next, Reach, Reach-Steps, start, init, pick,
}
use contention_queue.Invariant.{holds_lock}
use contention_queue.Safety.Hang.{holder-stays}
use contention_queue.Invariant.Moves.{Reach-Inv, Move-Effect}

-- The options do not unwrap mutex poison, and the queue is not poisoned.
abbrev IsClean : {c : Client} → World c → Type 0
IsClean w = (w.cq.options.unwrap_mutex_poison ≡ false) × ((exclusive w).queue_poisoned ≡ false)

-- A clean state in which thread `i` is in the `Err` branch only if its callback has panicked.
abbrev CleanMove : {c : Client} → ℕ → World c × Pc c → Type 0
CleanMove i r = IsClean r.0 × (r.1 ≡ failing → r.0.mutex.holder ≡ some i)

module _ {c : Client} (i : ℕ) where
  start_processing-clean :
      (w : World c) (v : c.Value) (task : ProcessTask c)
      → IsClean w
      → CleanMove i (start_processing w v task)
  unfolding start_processing mutex_poison_panics
  start_processing-clean w v task clean = ground arith

  after_wait-clean :
      (w : World c) (task : ProcessTask c) (o : Option c.Value) (b : Bool)
      → IsClean w
      → CleanMove i (after_wait w task (wait_result o b))
  unfolding after_wait wait_result dispatch queue_poison_panics start_processing mutex_poison_panics
  after_wait-clean w task o b clean = ground arith

  answer-clean :
      (w : World c) (h : QueueHandle) (k : Option c.Value → Callback c)
      (o : Outcome (Option c.Value))
      → IsClean w
      → w.mutex.holder ≡ some i
      → CleanMove i (answer w h k o)
  answer-clean w h k (value o) clean own = (clean, λ e. own)
  answer-clean w h k panics clean own = (clean, λ e. own)

  run-clean :
      (w : World c) (h : QueueHandle) (k : Callback c)
      → IsClean w
      → w.mutex.holder ≡ some i
      → CleanMove i (run_callback w h k)
  unfolding run_callback unlock Handle.clear_queue_poison
  run-clean w h (Callback.pop k) clean own =
      answer-clean (set_exclusive (Handle.pop h (exclusive w)).2 w) (Handle.pop h (exclusive w)).1 k
        (Handle.pop h (exclusive w)).0 (clean.0, pop-poisoned h (exclusive w) ∙ clean.1) own
  run-clean w h (Callback.peek k) clean own =
      answer-clean w h k (Handle.peek h (exclusive w)) clean own
  run-clean w h (Callback.unlocked k) clean own = (clean, λ e. absurd (ground arith))
  run-clean w h (Callback.clear_queue_poison k) clean own = ((clean.0, refl), λ e. own)
  run-clean w h _ clean own = (clean, λ e. own)

  process-clean :
      (addr : ℕ) (w : World c) (v : c.Value) (task : ProcessTask c)
      → IsClean w
      → CleanMove i (process addr i w v task)
  unfolding start_waiting push_task
  process-clean addr w v task clean =
      process-cases (CleanMove i) i w v task addr (λ _. (clean, λ e. absurd (ground arith)))
        (λ a e.
          let w₁ : World c = record w { cq = record (w.cq) { mutex_address = a } } in
          try_process_unchecked-cases (CleanMove i) i w₁ v task
            (λ _. (clean, λ e. absurd (ground arith)))
            (λ _.
              start_processing-clean
                (set_exclusive (record (exclusive w₁) { front_locked = true }) w₁) v task clean))

  Move-clean :
      {addr : ℕ} {w w' : World c} {p p' : Pc c}
      → Move addr i w p w' p'
      → IsClean w
      → (p ≡ failing → w.mutex.holder ≡ some i)
      → (holds_lock p ≡ true → w.mutex.holder ≡ some i)
      → CleanMove i (w', p')
  unfolding re_lock
  Move-clean {w = w} (locks {v} {task} free) clean lost own =
      lock_and_process-cases (CleanMove i) i w v task (clean, λ e. absurd (ground arith))
        (clean, λ e. absurd (ground arith))
  Move-clean {addr} {w = w} (enters {v} {task}) clean lost own = process-clean addr w v task clean
  Move-clean {w = w} (runs {h} {k}) clean lost own = run-clean w h k clean (own refl)
  Move-clean {w = w} (resumes {task} {s} {b} {r} free live awake turn e) clean lost own =
      let w₁ : World c = set_mutex (ignore_poison (lock i w.mutex)) w in
      let (t, rest, eq, res) = resume-some i w₁ task b e in
      subst (CleanMove i) (sym res)
        (after_wait-clean (after_pop i w₁ task b rest) task t.value b clean)
  Move-clean {w = w} (settles {result} {r} e) clean lost own =
      let (w', over, eq) = settle-some w result e in
      subst (CleanMove i) (sym eq) (handed_over wake_front_task over, λ x. absurd (ground arith))
    where
      handed_over :
          (wake : TaskState → TaskState) {w' : World c} → HandedOver wake w w' → IsClean w'
      handed_over wake (inl (e, eq)) = subst IsClean (sym eq) clean
      handed_over wake (inr (t, rest, s, e, live, eq)) = subst IsClean (sym eq) clean
  Move-clean (fails free e) clean lost own = absurd (ground (arith, lost refl))
  Move-clean {addr} {w = w} (asks {r} free e) clean lost own =
      let v = (is_queue_poisoned-Visited addr i w r e).1 in
      (
        (
          ap (λ o. o.unwrap_mutex_poison) v.options ∙ clean.0,
          ap (λ q. q.queue_poisoned) v.contents ∙ clean.1,
        ),
        λ x. absurd (ground arith),
      )
  Move-clean {addr} {w = w} (asks_unlocked {r} free e) clean lost own =
      let v = (is_queue_poisoned-Visited addr i w r e).1 in
      (
        (
          ap (λ o. o.unwrap_mutex_poison) v.options ∙ clean.0,
          ap (λ q. q.queue_poisoned) v.contents ∙ clean.1,
        ),
        λ x. absurd (ground arith),
      )
  Move-clean {addr} {w = w} {w'} (clears free e) clean lost own =
      let v = clear_queue_poison-Visited addr i w w' e in
      (
        (
          ap (λ o. o.unwrap_mutex_poison) v.options ∙ clean.0,
          ap (λ q. q.queue_poisoned) v.contents,
        ),
        λ x. absurd (ground arith),
      )
  Move-clean {addr} {w = w} {w'} (clears_unlocked free e) clean lost own =
      let v = clear_queue_poison-Visited addr i w w' e in
      (
        (
          ap (λ o. o.unwrap_mutex_poison) v.options ∙ clean.0,
          ap (λ q. q.queue_poisoned) v.contents,
        ),
        λ x. absurd (ground arith),
      )
  Move-clean _ clean lost own = (clean, λ x. absurd (ground arith))

-- Each thread in the `Err` branch holds the lock that it waits for.
record Clean {c : Client} (s : System c) : Type 0 where
  world : IsClean s.world
  lost : (j : ℕ) → s.pc j ≡ failing → s.world.mutex.holder ≡ some j

Step-Clean :
    {c : Client} {addr : ℕ} {s t : System c} → Reach addr s → Step addr s t → Clean s → Clean t
Step-Clean {s = s} r (pick i {w} {p} m) inv =
    let lock = (Reach-Inv r).lock in
    let after = Move-clean i m inv.world (inv.lost i) (lock.locked i) in
    record {
      world = after.0;
      lost =
          update-cases s.pc i (λ j q. q ≡ failing → w.mutex.holder ≡ some j) p after.1
            (λ j ne at.
              holder-stays j i lock (Move-Effect (Reach-Inv r).front refl m).lock refl
                (λ x. ne (sym x)) (inv.lost j at));
    }

Steps-Clean :
    {c : Client} {addr : ℕ} {s t : System c} → Reach addr s → Steps addr s t → Clean s → Clean t
Steps-Clean r here inv = inv
Steps-Clean r (next steps st) inv = Step-Clean (Reach-Steps r steps) st (Steps-Clean r steps inv)

-- In every state that threads reach from a start with `unwrap_mutex_poison = false`, the queue is not
-- poisoned, whatever panics in a callback, and a thread in the `Err` branch waits for the lock that
-- it holds itself.
pub never_poisoned :
    {c : Client} {addr : ℕ} {s : System c} (f : c.FrontState) (m : c.MutexState)
    (options : PanicOptions) (j : ℕ)
    → options.unwrap_mutex_poison ≡ false
    → Steps addr (init f m options) s
    → ((exclusive s.world).queue_poisoned ≡ false)
      × (s.pc j ≡ failing → s.world.mutex.holder ≡ some j)
unfolding new_with_options
never_poisoned f m options j off steps =
    let inv =
      Steps-Clean (start f m options) steps
        (record { world = (off, refl); lost = λ j e. absurd (ground arith) }) in
    (inv.world.1, inv.lost j)
