-- ===== src/Order/History.antt =====
-- The values in the order of their submission, through every move of every thread.
use mathlib.Core.List.{append-nil, append_assoc}
use contention_queue.Prelude.{
  ℕ, ◌≡◌, refl, sym, subst, ap, ◌∙◌, false, Option, List, [], ◌++◌, inl, inr, update,
}
use contention_queue.Interface.{Client, Callback, PanicOptions}
use contention_queue.Poisoning.{ignore_poison, lock, Outcome, value, panics}
use contention_queue.Handle
use contention_queue.Handle.{QueueHandle}
use contention_queue.Shape.{Popped}
use contention_queue.TaskState.{TaskState, wake_front_task, wake_front_task_panicking}
use contention_queue.Queue.{new_with_options}
use contention_queue.World.{World, exclusive, set_mutex, set_exclusive, Pc}
use contention_queue.Process.Branches.{lock_and_process-cases}
use contention_queue.Process.HandOver.{HandedOver, settle-some, fail-some, poisoned_by}
use contention_queue.Process.Flags.{is_queue_poisoned-Visited, clear_queue_poison-Visited}
use contention_queue.Run.{run_callback, answer, re_lock}
use contention_queue.System.{
  System, Move, locks, enters, resumes, runs, settles, fails, asks, clears, asks_unlocked,
  clears_unlocked, pick, Reach, start, later, init, re_locks,
}
use contention_queue.Invariant.{FrontInv, Permission, released, held, granted}
use contention_queue.Invariant.Front.Moved.{true-ne-false}
use contention_queue.Invariant.Moves.{handle-Popped, Reach-Inv}
use contention_queue.Order.{values, popped, submits, takes}
use contention_queue.Order.Flow.{pop-flow, process-flow, resume-flow}

module _ {c : Client} where
  -- A free front has an empty queue.
  pub free-empty :
      (w : World c) {pc : ℕ → Pc c}
      → Permission (exclusive w) w.frames pc
      → (exclusive w).front_locked ≡ false
      → (exclusive w).queue ≡ []
  free-empty w (released l e n) h = e
  free-empty w (held i k l hh un cu po asl) h = absurd (true-ne-false l h)
  free-empty w (granted k t r l e n po aw asl) h = absurd (true-ne-false l h)

  -- A move that leaves the queue as it was.
  still :
      (w w' : World c)
      → (exclusive w').queue ≡ (exclusive w).queue
      → values (exclusive w').queue ≡ values (exclusive w).queue ++ []
  still w w' e = ap values e ∙ sym (append-nil (values (exclusive w).queue))

  HandedOver-queue :
      (wake : TaskState → TaskState) (w w' : World c)
      → HandedOver wake w w'
      → (exclusive w').queue ≡ (exclusive w).queue
  HandedOver-queue wake w w' (inl (e, eq)) = ap (λ x. (exclusive x).queue) eq
  HandedOver-queue wake w w' (inr (t, rest, s, e, live, eq)) = ap (λ x. (exclusive x).queue) eq

  answer-world :
      (w : World c) (h : QueueHandle) (k : Option c.Value → Callback c)
      (o : Outcome (Option c.Value))
      → (answer w h k o).0 ≡ w
  answer-world w h k (value o) = refl
  answer-world w h k panics = refl

  run-flow :
      (w : World c) (h : QueueHandle) (k : Callback c)
      → Popped h.next_idx (exclusive w).queue
      → popped h w k ++ values (exclusive (run_callback w h k).0).queue
        ≡ values (exclusive w).queue ++ []
  unfolding run_callback Handle.clear_queue_poison
  run-flow w h (Callback.pop k) p =
      subst
        (λ x.
          popped h w (Callback.pop k) ++ values (exclusive x).queue
          ≡ values (exclusive w).queue ++ [])
        (sym (
          answer-world (set_exclusive (Handle.pop h (exclusive w)).2 w)
            (Handle.pop h (exclusive w)).1 k (Handle.pop h (exclusive w)).0))
        (pop-flow w h k p)
  run-flow w h (Callback.peek k) p =
      still w (answer w h k (Handle.peek h (exclusive w))).0
        (ap (λ x. (exclusive x).queue) (answer-world w h k (Handle.peek h (exclusive w))))
  run-flow w h _ p = still w w refl

  -- What a move takes, followed by what waits after it, is what waited before it, followed by what
  -- it submits.
  Move-flow :
      {addr i : ℕ} {w w' : World c} {p p' : Pc c} {pc : ℕ → Pc c}
      → FrontInv (exclusive w) w.frames pc
      → pc i ≡ p
      → (m : Move addr i w p w' p')
      → takes m ++ values (exclusive w').queue ≡ values (exclusive w).queue ++ submits m
  unfolding re_lock
  Move-flow {addr} {i} {w} inv at (enters {v} {task}) =
      process-flow w addr i v task (free-empty w inv.permission)
  Move-flow {i = i} {w} inv at (resumes {task} {s} {b} {r} free live awake turn e) =
      resume-flow (set_mutex (ignore_poison (lock i w.mutex)) w) i task b r e
  Move-flow {i = i} {w} inv at (runs {h} {k}) = run-flow w h k (handle-Popped w i inv at)
  Move-flow {w = w} {w'} inv at (settles {result} e) =
      let (w₁, over, eq) = settle-some w result e in
      still w w' (ap (λ x. (exclusive x.0).queue) eq ∙ HandedOver-queue wake_front_task w w₁ over)
  Move-flow {i = i} {w} {w'} inv at (fails free e) =
      let (w₁, over, eq) = fail-some i w e in
      still w w' (
        ap (λ x. (exclusive x.0).queue) eq
        ∙ HandedOver-queue wake_front_task_panicking (poisoned_by i w) w₁ over)
  Move-flow {addr} {i} {w} {w'} inv at (asks {r} free e) =
      still w w' (ap (λ x. x.queue) (is_queue_poisoned-Visited addr i w r e).1.contents)
  Move-flow {addr} {i} {w} {w'} inv at (asks_unlocked {r} free e) =
      still w w' (ap (λ x. x.queue) (is_queue_poisoned-Visited addr i w r e).1.contents)
  Move-flow {addr} {i} {w} {w'} inv at (clears free e) =
      still w w' (ap (λ x. x.queue) (clear_queue_poison-Visited addr i w w' e).contents)
  Move-flow {addr} {i} {w} {w'} inv at (clears_unlocked free e) =
      still w w' (ap (λ x. x.queue) (clear_queue_poison-Visited addr i w w' e).contents)
  Move-flow {i = i} {w} inv at (locks {v} {task} free) =
      lock_and_process-cases (λ r. values (exclusive r.0).queue ≡ values (exclusive w).queue ++ [])
        i w v task (still w w refl) (still w w refl)
  Move-flow {i = i} {w} inv at (re_locks output free) = still w w refl
  Move-flow {w = w} {w'} inv at _ = still w w' refl

-- The states that can be reached, with the values submitted and taken on the way, oldest first.
pub data History {c : Client} (addr : ℕ) : System c → List c.Value → List c.Value → Type 0 where
  begins :
      (f : c.FrontState) (m : c.MutexState) (options : PanicOptions)
      → History addr (init f m options) [] []
  continues :
      {s : System c} {ins outs : List c.Value} (i : ℕ) {w : World c} {p : Pc c}
      → History addr s ins outs
      → (m : Move addr i s.world (s.pc i) w p)
      → History addr
          (record { world = w; pc = update s.pc i p })
          (ins ++ submits m)
          (outs ++ takes m)

pub History-Reach :
    {c : Client} {addr : ℕ} {s : System c} {ins outs : List c.Value}
    → History addr s ins outs
    → Reach addr s
History-Reach (begins f m options) = start f m options
History-Reach (continues i h m) = later (History-Reach h) (pick i m)

-- In every history, the values taken so far, in the order in which they were taken, followed by the
-- values that wait in the queue, front first, are the values submitted so far, in the order of their
-- submission.
pub first_in_first_out :
    {c : Client} {addr : ℕ} {s : System c} {ins outs : List c.Value}
    → History addr s ins outs
    → outs ++ values (exclusive s.world).queue ≡ ins
unfolding new_with_options
first_in_first_out (begins f m options) = refl
first_in_first_out (continues {s} {ins} {outs} i {w} {p} h m) =
    let before = first_in_first_out h in
    let flow = Move-flow (Reach-Inv (History-Reach h)).front refl m in
    append_assoc outs (takes m) (values (exclusive w).queue)
    ∙ ap (λ x. outs ++ x) flow
    ∙ sym (append_assoc outs (values (exclusive s.world).queue) (submits m))
    ∙ ap (λ x. x ++ submits m) before
