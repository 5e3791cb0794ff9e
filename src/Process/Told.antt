-- ===== src/Process/Told.antt =====
-- What the two ends of `process_unchecked` of src/queue.rs tell the thread of the next task.
use contention_queue.Prelude.{
  ℕ, ◌≡◌, ◌<◌, ap, ◌∙◌, true, some, List, ◌∷◌, update, update_self, arith, inl, inr,
}
use contention_queue.Interface.{Client, ProcessResult}
use contention_queue.TaskState.{
  TaskState, wait_until_at_front, wake_front_task, wake_front_task_panicking,
}
use contention_queue.TaskState.Table.{wake-wait, has_panicked}
use contention_queue.Task.{ErasedTask}
use contention_queue.World.{World, exclusive, Pc}
use contention_queue.Process.{settle, fail}
use contention_queue.Process.HandOver.{HandedOver, settle-some, fail-some, poisoned_by}

-- The frame of the front task's thread after a hand-over.
told :
    {c : Client} (wake : TaskState → TaskState) (w w' : World c) (t : ErasedTask c.Value)
    (rest : List (ErasedTask c.Value)) (ts : TaskState)
    → (exclusive w).queue ≡ t ∷ rest
    → w.frames t.state ≡ some ts
    → HandedOver wake w w'
    → w'.frames t.state ≡ some (wake ts)
told wake w w' t rest ts e live (inl (e', eq)) = absurd (ground arith)
told wake w w' t rest ts e live (inr (u, r, s, e', live', eq)) =
    let same : u.state ≡ t.state = ground arith in
    let known : s ≡ ts = ground arith in
    ap (λ x. x.frames t.state) eq
    ∙ ap (λ x. update w.frames x (some (wake s)) t.state) same
    ∙ update_self w.frames t.state (some (wake s))
    ∙ ap (λ x. some (wake x)) known

module _ {c : Client} (i : ℕ) (w : World c) (t : ErasedTask c.Value)
    (rest : List (ErasedTask c.Value)) (ts : TaskState) where
  -- With a task `t` at the front whose thread has the state byte of `ts`: after the `Ok` branch that
  -- thread finds the panic bit that its byte already had, whatever the result of the branch was,
  -- also `ProcessingPanicked`; after the `Err` branch it finds the panic bit set.
  pub next_thread_told :
      (result : ProcessResult c.Return) (settled failed : World c × Pc c)
      → (exclusive w).queue ≡ t ∷ rest
      → w.frames t.state ≡ some ts
      → ts.state < 256
      → settle w result ≡ some settled
      → fail i w ≡ some failed
      → ((ts' : TaskState) × (settled.0.frames t.state ≡ some ts')
          × (wait_until_at_front ts' ≡ some (has_panicked ts.state)))
        × ((ts' : TaskState) × (failed.0.frames t.state ≡ some ts')
            × (wait_until_at_front ts' ≡ some true))
  next_thread_told result settled failed e live byte es ef =
      let (w₁, over₁, eq₁) = settle-some w result es in
      let (w₂, over₂, eq₂) = fail-some i w ef in
      let woken = wake-wait ts byte in
      (
        (
          wake_front_task ts,
          ap (λ x. x.0.frames t.state) eq₁ ∙ told wake_front_task w w₁ t rest ts e live over₁,
          woken.0,
        ),
        (
          wake_front_task_panicking ts,
          ap (λ x. x.0.frames t.state) eq₂
              ∙ told wake_front_task_panicking (poisoned_by i w) w₂ t rest ts e live over₂,
          woken.1,
        ),
      )
