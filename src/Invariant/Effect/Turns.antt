-- ===== src/Invariant/Effect/Turns.antt =====
-- The effects of a thread that has the front permission.
use contention_queue.Prelude.{ℕ, ◌≡◌, refl, sym, subst, ap, ◌∙◌, inl, inr, true, Option, none, some}
use contention_queue.Interface.{Client, Callback, ProcessResult}
use contention_queue.Poisoning.{lock, drop_guard}
use contention_queue.TaskState.{TaskState, wake_front_task, wake_front_task_panicking}
use contention_queue.TaskState.Bits.{wake_front_task-Awake, wake_front_task_panicking-Awake}
use contention_queue.QueueState.{MutexExclusive}
use contention_queue.Handle.{QueueHandle}
use contention_queue.Handle
use contention_queue.Handle.Values.{peek_returns, pop-keeps}
use contention_queue.Shape.{Asleep, Awake, Popped, owners}
use contention_queue.World.{
  World, exclusive, set_exclusive, Pc, running, unlocked, settling, failing, returned, panicked,
}
use contention_queue.Process.Branches.{ignore_poison-lock}
use contention_queue.Process.HandOver.{
  HandedOver, HandedOver-same, settle-some, fail-some, poisoned_by,
}
use contention_queue.Process.{settle, fail}
use contention_queue.Run.{set_front_state, run_callback, re_lock, answer}
use contention_queue.Invariant.{has_front}
use contention_queue.Invariant.Lock.{keeps, leaks, takes, drops, visits}
use contention_queue.Invariant.Front.{IsOutside, FrontEffect, stays, releases, grants}
use contention_queue.Invariant.Effect.{Effect}

module _ {c : Client} (addr i : ℕ) (w : World c) where
  pub re_lock-Effect :
      (h : QueueHandle) (k : Option c.Output → Callback c) (o : Option c.Output)
      → w.mutex.holder ≡ none
      → Effect addr i w (unlocked h k) (re_lock i w h k o).0 (re_lock i w h k o).1
  unfolding re_lock
  re_lock-Effect h k o free = record {
    lock = takes free (ap (λ m. m.holder) (ignore_poison-lock i w.mutex)) refl;
    front = stays refl refl refl refl refl (λ _. refl) (λ k cu po. (k, cu, po));
    address = inl refl;
  }

  peek-Effect :
      (h : QueueHandle) (k : Option c.Value → Callback c)
      → Popped h.next_idx (exclusive w).queue
      → let r = answer w h k (Handle.peek h (exclusive w)) in
        Effect addr i w (running h (Callback.peek k)) r.0 r.1
  peek-Effect h k po =
      let got = peek_returns h (exclusive w) po in
      subst (λ a. let r = answer w h k a in Effect addr i w (running h (Callback.peek k)) r.0 r.1)
        (sym got.1)
        (record {
          lock = keeps refl refl (λ e. cc);
          front = stays refl refl refl refl refl (λ _. refl) (λ k cu po. (k, cu, po));
          address = inl refl;
        })

  pop-Effect :
      (h : QueueHandle) (k : Option c.Value → Callback c)
      → Popped h.next_idx (exclusive w).queue
      → let (popped, h', q) = Handle.pop h (exclusive w) in
        let r = answer (set_exclusive q w) h' k popped in
        Effect addr i w (running h (Callback.pop k)) r.0 r.1
  pop-Effect h k po =
      let got = pop-keeps h (exclusive w) po in
      subst
        (λ a.
          let r = answer (set_exclusive a.2 w) a.1 k a.0 in
          Effect addr i w (running h (Callback.pop k)) r.0 r.1)
        (sym got.3)
        (record {
          lock = keeps refl refl (λ e. cc);
          front =
              stays got.6 got.5 refl refl refl (λ e. cc) (λ k cu po. (got.1.next_idx, refl, got.4));
          address = inl refl;
        })

  -- A turn in which the handle, the queue, the frames and the lock stay as they are.
  same_turn :
      {h : QueueHandle} {k k' : Callback c} {w' : World c}
      → w'.mutex.holder ≡ w.mutex.holder
      → (exclusive w').front_locked ≡ (exclusive w).front_locked
      → (exclusive w').queue ≡ (exclusive w).queue
      → w'.frames ≡ w.frames
      → w'.cq.mutex_address ≡ w.cq.mutex_address
      → Effect addr i w (running h k) w' (running h k')
  same_turn lock locked queue frames address = record {
    lock = keeps lock refl (λ e. cc);
    front =
        stays locked (ap owners queue) frames refl refl (λ _. queue)
          (λ n cu po. (n, cu, subst (Popped n) (sym queue) po));
    address = inl address;
  }

  pub repeat-Effect :
      (h : QueueHandle) (k : Callback c)
      → Effect addr i w (running h Callback.again) w (running h k)
  repeat-Effect h k = same_turn refl refl refl refl refl

  -- The closure of `unlocked` uses the front state.
  pub write-Effect :
      (h : QueueHandle) (k : Option c.Output → Callback c) (f : c.FrontState)
      → Effect addr i w (unlocked h k) (set_front_state f w) (unlocked h k)
  write-Effect h k f = record {
    lock = keeps refl refl (λ e. cc);
    front = stays refl refl refl refl refl (λ _. refl) (λ n cu po. (n, cu, po));
    address = inl refl;
  }

  pub run-Effect :
      (h : QueueHandle) (k : Callback c)
      → Popped h.next_idx (exclusive w).queue
      → Effect addr i w (running h k) (run_callback w h k).0 (run_callback w h k).1
  unfolding run_callback drop_guard Handle.clear_queue_poison
  run-Effect h (Callback.return r) po = record {
    lock = keeps refl refl (λ e. cc);
    front = stays refl refl refl refl refl (λ _. refl) (λ n cu po. (n, tt, po));
    address = inl refl;
  }
  run-Effect h Callback.panic po = record {
    lock = leaks refl refl refl;
    front = stays refl refl refl refl refl (λ _. refl) (λ n cu po. (n, tt, po));
    address = inl refl;
  }
  run-Effect h Callback.again po = same_turn refl refl refl refl refl
  run-Effect h (Callback.peek k) po = peek-Effect h k po
  run-Effect h (Callback.pop k) po = pop-Effect h k po
  run-Effect h (Callback.mutex_state k) po = same_turn refl refl refl refl refl
  run-Effect h (Callback.set_mutex_state m k) po = same_turn refl refl refl refl refl
  run-Effect h (Callback.front_state k) po = same_turn refl refl refl refl refl
  run-Effect h (Callback.set_front_state f k) po = same_turn refl refl refl refl refl
  run-Effect h (Callback.unlocked k) po = record {
    lock = drops refl refl refl;
    front = stays refl refl refl refl refl (λ _. refl) (λ n cu po. (n, cu, po));
    address = inl refl;
  }
  run-Effect h (Callback.is_queue_poisoned k) po = same_turn refl refl refl refl refl
  run-Effect h (Callback.clear_queue_poison k) po = same_turn refl refl refl refl refl

  -- The permission of thread `i` is released or transferred, by a way to wake a thread.
  hand_over-Front :
      (wake : TaskState → TaskState) (q : MutexExclusive c.Value) (w₁ w₂ : World c) (p p' : Pc c)
      → ((s : TaskState) → Asleep (some s) → Awake (some (wake s)))
      → HandedOver wake w₁ w₂
      → q.queue ≡ (exclusive w₁).queue
      → q.front_locked ≡ (exclusive w₁).front_locked
      → has_front p ≡ true
      → IsOutside p'
      → FrontEffect i q w₁.frames p (exclusive w₂) w₂.frames p'
  hand_over-Front wake q w₁ w₂ p p' wakes (inl (e, eq)) hq hl hf out =
      releases (hq ∙ e) (ap (λ x. (exclusive x).queue) eq ∙ e)
        (ap (λ x. (exclusive x).front_locked) eq) (ap (λ (x : World c). x.frames) eq) hf out
  hand_over-Front wake q w₁ w₂ p p' wakes (inr (t, rest, s, e, live, eq)) hq hl hf out =
      grants s (wake s) t rest (hq ∙ e) (ap (λ x. (exclusive x).queue) eq ∙ sym hq)
        (ap (λ x. (exclusive x).front_locked) eq ∙ sym hl) live (ap (λ (x : World c). x.frames) eq)
        (wakes s) hf out

  pub settle-Effect :
      (result : ProcessResult c.Return) (r : World c × Pc c)
      → settle w result ≡ some r
      → Effect addr i w (settling result) r.0 r.1
  settle-Effect result r e =
      let (w', over, eq) = settle-some w result e in
      subst (λ (x : World c × Pc c). Effect addr i w (settling result) x.0 x.1) (sym eq)
        (record {
          lock =
              keeps (ap (λ m. m.holder) (HandedOver-same wake_front_task w w' over).0) refl
                (λ e. cc);
          front =
              hand_over-Front wake_front_task (exclusive w) w w' (settling result) (returned result)
                wake_front_task-Awake over refl refl refl (refl, refl);
          address = inl (HandedOver-same wake_front_task w w' over).1;
        })

  pub fail-Effect :
      (r : World c × Pc c)
      → w.mutex.holder ≡ none
      → fail i w ≡ some r
      → Effect addr i w failing r.0 r.1
  unfolding drop_guard
  fail-Effect r free e =
      let (w', over, eq) = fail-some i w e in
      subst (λ (x : World c × Pc c). Effect addr i w failing x.0 x.1) (sym eq)
        (record {
          lock = visits free refl refl;
          front =
              hand_over-Front wake_front_task_panicking (exclusive w) (poisoned_by i w) w' failing
                panicked wake_front_task_panicking-Awake over refl refl refl (refl, refl);
          address = inl (HandedOver-same wake_front_task_panicking (poisoned_by i w) w' over).1;
        })
