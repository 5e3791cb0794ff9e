-- ===== src/Invariant/Effect/Waits.antt =====
-- The effects of a thread in `wait_until_at_front`, up to its turn.
use contention_queue.Prelude.{
  ℕ, ◌≡◌, ◌≢◌, refl, sym, subst, ap, inl, Bool, none, some, update, arith,
}
use contention_queue.Interface.{Client, ProcessTask}
use contention_queue.Poisoning.{ignore_poison, lock, unwind_guard}
use contention_queue.TaskState.{TaskState, wait, notify_one, wait_until_at_front}
use contention_queue.TaskState.Bits.{wait_until_at_front-Awake}
use contention_queue.Handle
use contention_queue.Shape.{NoValue}
use contention_queue.World.{World, set_frames, set_mutex, Pc, waiting}
use contention_queue.Process.{resume, unwind}
use contention_queue.Process.Branches.{ignore_poison-lock}
use contention_queue.Process.Resume.{after_pop, resume-some, after_wait-cases}
use contention_queue.Invariant.Lock.{keeps, takes, visits}
use contention_queue.Invariant.Front.{stirs, resumes}
use contention_queue.Invariant.Effect.{Effect}

module _ {c : Client} (addr i : ℕ) (w : World c) (task : ProcessTask c) (s : TaskState) where
  pub notify-Effect :
      w.frames i ≡ some s
      → Effect addr i w
          (waiting task)
          (set_frames (update w.frames i (some (notify_one s))) w)
          (waiting task)
  unfolding notify_one
  notify-Effect fi = record {
    lock = keeps refl refl (λ e. e);
    front = stirs s (notify_one s) refl fi refl refl (λ a. (a.0, refl)) refl refl;
    address = inl refl;
  }

  pub wait-Effect :
      w.frames i ≡ some s
      → wait_until_at_front s ≡ none
      → Effect addr i w
          (waiting task)
          (set_frames (update w.frames i (some (wait s))) w)
          (waiting task)
  unfolding wait
  wait-Effect fi n = record {
    lock = keeps refl refl (λ e. e);
    front =
        stirs s (wait s) refl fi refl refl (λ a. absurd (wait_until_at_front-Awake s a n)) refl
          refl;
    address = inl refl;
  }

  pub resume-Effect :
      (b : Bool) (r : World c × Pc c)
      → w.mutex.holder ≡ none
      → w.frames i ≡ some s
      → wait_until_at_front s ≡ some b
      → resume i (set_mutex (ignore_poison (lock i w.mutex)) w) task b ≡ some r
      → Effect addr i w (waiting task) r.0 r.1
  unfolding unwind unwind_guard Handle.new
  resume-Effect b r free fi turn e =
      let w₁ : World c = set_mutex (ignore_poison (lock i w.mutex)) w in
      let popped = resume-some i w₁ task b e in
      let t = popped.0 in
      let rest = popped.1 in
      let awake : wait_until_at_front s ≢ none = λ x. ground arith in
      let taken = ap (λ m. m.holder) (ignore_poison-lock i w.mutex) in
      subst (λ (x : World c × Pc c). Effect addr i w (waiting task) x.0 x.1) (sym popped.3)
        (after_wait-cases (λ x. Effect addr i w (waiting task) x.0 x.1) (after_pop i w₁ task b rest)
          task t.value b
          (record {
            lock = visits free refl refl;
            front =
                resumes s t rest fi awake refl popped.2 refl refl refl refl refl (λ _. tt)
                  (λ _ _. tt);
            address = inl refl;
          })
          (λ v hv. record {
            lock = takes free taken refl;
            front =
                resumes s t rest fi awake refl popped.2 refl refl refl refl refl (λ _. refl)
                  (λ k n. absurd (subst NoValue hv n));
            address = inl refl;
          })
          (λ x hn. record {
            lock = takes free taken refl;
            front =
                resumes s t rest fi awake refl popped.2 refl refl refl refl refl (λ _. tt)
                  (λ _ _. tt);
            address = inl refl;
          }))
