-- ===== src/Safety/Memory.antt =====
-- No reference to a `TaskState` dangles where it is used, no task is missing where it is popped
-- unchecked, and the handle's `expect`s hold.
use contention_queue.Prelude.{
  ℕ, ◌≡◌, refl, sym, ap, ◌∙◌, true, Bool, Option, some, List, ◌∷◌, arith, Option-cases, inl, inr,
}
use contention_queue.Interface.{Client, Callback, ProcessTask, ProcessResult}
use contention_queue.Poisoning.{value, ignore_poison, lock, drop_guard}
use contention_queue.TaskState.{
  TaskState, wait_until_at_front, wake_front_task, wake_front_task_panicking,
}
use contention_queue.Task.{ErasedTask}
use contention_queue.Shape.{owners, owns, is_live}
use contention_queue.Handle
use contention_queue.Handle.{QueueHandle}
use contention_queue.Handle.Values.{peek_returns, pop-keeps}
use contention_queue.Queue.{wait_result}
use contention_queue.World.{World, exclusive, set_mutex, Pc, waiting, running, returned, panicked}
use contention_queue.Process.{resume, after_wait, settle, fail}
use contention_queue.Process.Resume.{after_pop, resume_returns}
use contention_queue.Process.HandOver.{hand_over_returns, poisoned_by}
use contention_queue.Invariant.Front.Moved.{true-ne-false}
use contention_queue.System.{System, Reach}
use contention_queue.Invariant.{is_waiting, FrontInv}
use contention_queue.Invariant.Front.Owner.{front_task}
use contention_queue.Invariant.Moves.{Reach-Inv, handle-Popped}

module _ {c : Client} {addr : ℕ} {s : System c} (r : Reach addr s) (i : ℕ) where
  -- In every reachable state, a thread has a task in the queue exactly if it waits in
  -- `wait_until_at_front`, and exactly then the `TaskState` in its frame is live.
  queued_frames :
      (owns i (owners (exclusive s.world).queue) ≡ is_waiting (s.pc i))
      × (is_live (s.world.frames i) ≡ is_waiting (s.pc i))
  queued_frames = let inv = (Reach-Inv r).front in (inv.queued i, inv.live i)

  -- In every reachable state, if a waiting thread finds its front bit set, then the queue is not
  -- empty, its front task is the one that this thread pushed, and the unchecked pop succeeds with
  -- the value of that task.
  pub pops_own_task :
      (task : ProcessTask c) (ts : TaskState) (b : Bool)
      → s.pc i ≡ waiting task
      → s.world.frames i ≡ some ts
      → wait_until_at_front ts ≡ some b
      → let w : World c = set_mutex (ignore_poison (lock i s.world.mutex)) s.world in
        (t : ErasedTask c.Value) × (rest : List (ErasedTask c.Value)) × ((exclusive s.world).queue
          ≡ t ∷ rest)
        × (t.state ≡ i)
        × (resume i w task b
            ≡ some (after_wait (after_pop i w task b rest) task (wait_result t.value b)))
  pops_own_task task ts b at live turn =
      let (t, rest, e, own) =
        front_task (Reach-Inv r).front i ts live (λ n. ground arith) (ap is_waiting at) in
      let w : World c = set_mutex (ignore_poison (lock i s.world.mutex)) s.world in
      (t, rest, e, own, resume_returns i w task b t rest e)

  -- In every reachable state, `peek` and `pop` of the handle of a running callback return: neither
  -- `expect` panics.
  pub handle_returns :
      (h : QueueHandle) (k : Callback c)
      → s.pc i ≡ running h k
      → ((o : Option c.Value) × (Handle.peek h (exclusive s.world) ≡ value o))
        × ((o : Option c.Value) × ((Handle.pop h (exclusive s.world)).0 ≡ value o))
  handle_returns h k at =
      let shape = handle-Popped s.world i (Reach-Inv r).front at in
      let popped = pop-keeps h (exclusive s.world) shape in
      (peek_returns h (exclusive s.world) shape, (popped.0, ap (λ x. x.0) popped.3))

-- The frame of a front task is live.
front-live :
    {c : Client} (w : World c) {pc : ℕ → Pc c}
    → FrontInv (exclusive w) w.frames pc
    → (t : ErasedTask c.Value) (rest : List (ErasedTask c.Value)) → (exclusive w).queue ≡ t ∷ rest
    → (ts : TaskState) × (w.frames t.state ≡ some ts)
front-live w {pc} inv t rest e = elim (Option-cases (w.frames t.state)) [
  | inl dangling ↦ absurd (
      true-ne-false
        (inv.live t.state
          ∙ sym (inv.queued t.state)
          ∙ ap (λ xs. owns t.state (owners xs)) e
          ∙ owns_first t.state (owners rest))
        (ap is_live dangling))
  | inr live ↦ live
]
  where
    owns_first : (x : ℕ) (xs : List ℕ) → owns x (x ∷ xs) ≡ true
    owns_first x xs = ground arith

module _ {c : Client} {addr : ℕ} {s : System c} (r : Reach addr s) where
  -- In every reachable state, whichever branch of `process_unchecked` ends, its use of the front
  -- task's reference finds a live `TaskState`: the branch returns.
  pub hands_over :
      (i : ℕ) (result : ProcessResult c.Return)
      → ((x : World c × Pc c) × (settle s.world result ≡ some x))
        × ((x : World c × Pc c) × (fail i s.world ≡ some x))
  unfolding settle fail
  hands_over i result =
      let live = front-live s.world (Reach-Inv r).front in
      let settled = hand_over_returns wake_front_task s.world live in
      let failed = hand_over_returns wake_front_task_panicking (poisoned_by i s.world) live in
      (
        ((settled.0, returned result), rw (settled.1, settle) refl),
        ((set_mutex (drop_guard failed.0.mutex) failed.0, panicked), rw (failed.1, fail) refl),
      )
