-- ===== src/TaskState/Bits.antt =====
-- The two bits of a task's state byte.
use contention_queue.Prelude.{◌≡◌, ◌≢◌, refl, inl, inr, none, some}
use contention_queue.TaskState.{
  TaskState, wait_until_at_front, wake_front_task, wake_front_task_panicking,
}
use contention_queue.Shape.{Asleep, Awake}

-- A thread goes on waiting while its byte is as `new` made it.
pub wait_until_at_front-asleep : (s : TaskState) → s.state ≡ 0 → wait_until_at_front s ≡ none
unfolding wait_until_at_front
wait_until_at_front-asleep s h = rw (h, wait_until_at_front) refl

pub wait_until_at_front-Awake : (s : TaskState) → Awake (some s) → wait_until_at_front s ≢ none
unfolding wait_until_at_front
wait_until_at_front-Awake s (inl h, _) = rw (h, wait_until_at_front) (λ e. cc)
wait_until_at_front-Awake s (inr h, _) = rw (h, wait_until_at_front) (λ e. cc)

-- Both ways to wake a sleeping thread make it the front.
pub wake_front_task-Awake : (s : TaskState) → Asleep (some s) → Awake (some (wake_front_task s))
unfolding wake_front_task
wake_front_task-Awake s h = (inl (rw h refl), refl)

pub wake_front_task_panicking-Awake :
    (s : TaskState) → Asleep (some s) → Awake (some (wake_front_task_panicking s))
unfolding wake_front_task_panicking
wake_front_task_panicking-Awake s h = (inr (rw h refl), refl)
