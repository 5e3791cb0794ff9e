-- ===== src/Invariant/Effect/Calls.antt =====
-- The effects of the calls of `lock_and_process` and `process`, up to the callback or the wait.
use contention_queue.Prelude.{ℕ, ◌≡◌, ◌⊎◌, refl, inl, inr, true, false, none, arith, if-cases}
use contention_queue.Interface.{Client, ProcessTask}
use contention_queue.Poisoning.{drop_guard, unwind_guard}
use contention_queue.TaskState
use contention_queue.TaskState.{wait}
use contention_queue.Handle
use contention_queue.Queue.{push_task, mutex_poison_panics}
use contention_queue.Queue.Address.{assert_mutex_good-value}
use contention_queue.World.{World, exclusive, set_exclusive, Pc, calling, entering}
use contention_queue.Process.{lock_and_process, process, start_processing, start_waiting, unwind}
use contention_queue.Process.Branches.{
  lock_and_process-cases, try_process_unchecked-cases, process-cases,
}
use contention_queue.Invariant.Lock.{keeps, takes, drops, visits}
use contention_queue.Invariant.Front.{stays, acquires, pushes}
use contention_queue.Invariant.Effect.{Effect}

module _ {c : Client} (addr i : ℕ) (w : World c) (v : c.Value) (task : ProcessTask c) where
  pub lock_and_process-Effect :
      w.mutex.holder ≡ none
      → Effect addr i w
          (calling v task)
          (lock_and_process i w v task).0
          (lock_and_process i w v task).1
  unfolding unwind_guard
  lock_and_process-Effect free =
      lock_and_process-cases (λ r. Effect addr i w (calling v task) r.0 r.1) i w v task
        (record {
          lock = visits free refl refl;
          front = stays refl refl refl refl refl (λ _. refl) (λ k cu po. (k, tt, po));
          address = inl refl;
        })
        (record {
          lock = takes free refl refl;
          front = stays refl refl refl refl refl (λ _. refl) (λ k cu po. (k, tt, po));
          address = inl refl;
        })

  start_waiting-Effect :
      (a : ℕ)
      → (a ≡ w.cq.mutex_address) ⊎ (a ≡ addr)
      → (exclusive w).front_locked ≡ true
      → let r = start_waiting i (record w { cq = record (w.cq) { mutex_address = a } }) v task in
        Effect addr i w (entering v task) r.0 r.1
  unfolding start_waiting drop_guard push_task wait TaskState.new
  start_waiting-Effect a ha l = record {
    lock = drops refl refl refl;
    front = pushes _ _ l l refl refl tt refl refl (refl, refl) refl refl;
    address = ha;
  }

  start_processing-Effect :
      (a : ℕ)
      → (a ≡ w.cq.mutex_address) ⊎ (a ≡ addr)
      → (exclusive w).front_locked ≡ false
      → let w₁ : World c = record w { cq = record (w.cq) { mutex_address = a } } in
        let r =
          start_processing
            (set_exclusive (record (exclusive w₁) { front_locked = true }) w₁)
            v
            task in
        Effect addr i w (entering v task) r.0 r.1
  unfolding start_processing unwind unwind_guard Handle.new
  start_processing-Effect a ha l =
      if-cases (λ (r : World c × Pc c). Effect addr i w (entering v task) r.0 r.1)
        (mutex_poison_panics w.cq.options w.mutex.is_poisoned)
        (λ _. record {
          lock = drops refl refl refl;
          front = acquires l refl refl refl (refl, refl) refl refl tt;
          address = ha;
        })
        (λ _. record {
          lock = keeps refl refl (λ e. absurd (ground arith));
          front = acquires l refl refl refl (refl, refl) refl refl refl;
          address = ha;
        })

  pub process-Effect :
      Effect addr i w (entering v task) (process addr i w v task).0 (process addr i w v task).1
  unfolding unwind_guard
  process-Effect =
      process-cases (λ r. Effect addr i w (entering v task) r.0 r.1) i w v task addr
        (λ _. record {
          lock = drops refl refl refl;
          front = stays refl refl refl refl refl (λ _. refl) (λ k cu po. (k, tt, po));
          address = inl refl;
        })
        (λ a e.
          let stored = inr (assert_mutex_good-value w.cq.mutex_address addr a e).0 in
          try_process_unchecked-cases (λ r. Effect addr i w (entering v task) r.0 r.1) i
            (record w { cq = record (w.cq) { mutex_address = a } }) v task
            (start_waiting-Effect a stored) (start_processing-Effect a stored))
