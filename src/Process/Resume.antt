-- ===== src/Process/Resume.antt =====
-- The branches of `resume`: what a woken thread does with the task that it pops.
use contention_queue.Prelude.{
  ℕ, ◌≡◌, refl, true, false, Option, none, some, Bool, List, ◌∷◌, update, if-cases, arith,
}
use contention_queue.Interface.{Client, ProcessTask, ProcessResult}
use contention_queue.Task.{ErasedTask, into_inner}
use contention_queue.Handle
use contention_queue.Queue.{wait_result, pop_task, queue_poison_panics, mutex_poison_panics}
use contention_queue.World.{World, exclusive, set_exclusive, set_frames, Pc, running, settling}
use contention_queue.Process.{resume, after_wait, dispatch, start_processing, unwind}

module _ {c : Client} (i : ℕ) (w : World c) (task : ProcessTask c) (b : Bool) where
  -- The state after the pop of the front task, with the rest of the queue.
  abbrev pub after_pop : List (ErasedTask c.Value) → World c
  after_pop rest =
      set_frames (update w.frames i none) (set_exclusive (record (exclusive w) { queue = rest }) w)

  pub resume-some :
      {r : World c × Pc c}
      → resume i w task b ≡ some r
      → (t : ErasedTask c.Value) × (rest : List (ErasedTask c.Value)) × ((exclusive w).queue
          ≡ t ∷ rest)
        × (r ≡ after_wait (after_pop rest) task (wait_result t.value b))
  unfolding resume pop_task into_inner
  resume-some {r} h = ground arith

  -- A queue that is not empty can be popped.
  pub resume_returns :
      (t : ErasedTask c.Value) (rest : List (ErasedTask c.Value))
      → (exclusive w).queue ≡ t ∷ rest
      → resume i w task b ≡ some (after_wait (after_pop rest) task (wait_result t.value b))
  unfolding resume pop_task into_inner
  resume_returns t rest e = ground arith

module _ {c : Client} (P : World c × Pc c → Type 0) (w : World c) (task : ProcessTask c) where
  pub start_processing-cases :
      (v : c.Value)
      → P (unwind w)
      → P (w, running Handle.new (task v))
      → P (start_processing w v task)
  unfolding start_processing
  start_processing-cases v bad good =
      if-cases P (mutex_poison_panics w.cq.options w.mutex.is_poisoned) (λ _. bad) (λ _. good)

  pub after_wait-cases :
      (o : Option c.Value) (b : Bool)
      → P (unwind w)
      → ((v : c.Value) → o ≡ some v → P (w, running Handle.new (task v)))
      → ((r : ProcessResult c.Return) → o ≡ none → P (w, settling r))
      → P (after_wait w task (wait_result o b))
  unfolding after_wait dispatch wait_result
  after_wait-cases o b bad runs settles =
      if-cases P (queue_poison_panics w.cq.options (exclusive w)) (λ _. bad)
        (λ _. branches o b runs settles)
    where
      branches :
          (o : Option c.Value) (b : Bool)
          → ((v : c.Value) → o ≡ some v → P (w, running Handle.new (task v)))
          → ((r : ProcessResult c.Return) → o ≡ none → P (w, settling r))
          → P (dispatch w task (wait_result o b))
      branches (some v) b runs settles = start_processing-cases v bad (runs v refl)
      branches none true runs settles = settles ProcessResult.processing_panicked refl
      branches none false runs settles = settles ProcessResult.processed_elsewhere refl

-- The poison checks of a woken thread leave the queue alone.
pub after_wait-queue :
    {c : Client} (w : World c) (task : ProcessTask c) (o : Option c.Value) (b : Bool)
    → (exclusive (after_wait w task (wait_result o b)).0).queue ≡ (exclusive w).queue
unfolding unwind
after_wait-queue w task o b =
    after_wait-cases (λ x. (exclusive x.0).queue ≡ (exclusive w).queue) w task o b refl
      (λ v e. refl) (λ x e. refl)
