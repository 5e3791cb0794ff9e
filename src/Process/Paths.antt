-- ===== src/Process/Paths.antt =====
-- The paths through `process` of src/queue.rs, up to the wait or to the call of the callback, and those
-- from the wait on.
use contention_queue.Prelude.{ℕ, ◌≡◌, Bool, true, false, some, List, ◌∷◌, sym, subst}
use contention_queue.Interface.{Client, ProcessTask, ProcessResult}
use contention_queue.Poisoning.{value, panics, unwind_guard}
use contention_queue.Task.{ErasedTask}
use contention_queue.Handle
use contention_queue.Queue.{assert_mutex_good}
use contention_queue.World.{
  World, exclusive, set_exclusive, set_mutex, Pc, running, settling, panicked,
}
use contention_queue.Process.{process, resume, start_waiting, unwind}
use contention_queue.Process.Branches.{process-cases, try_process_unchecked-cases}
use contention_queue.Process.Resume.{
  after_pop, resume-some, start_processing-cases, after_wait-cases,
}

module _ {c : Client} where
  -- With the address of the mutex stored.
  abbrev pub storing : ℕ → World c → World c
  storing a w = record w { cq = record (w.cq) { mutex_address = a } }

  -- With the front permission taken.
  abbrev pub at_front : World c → World c
  at_front w = set_exclusive (record (exclusive w) { front_locked = true }) w

module _ {c : Client} (P : World c × Pc c → Type 0) (i : ℕ) (w : World c) (v : c.Value)
    (task : ProcessTask c) (addr : ℕ) where
  -- What holds at the ends of the four paths: the mutex is refused, the thread waits, the poison of
  -- the mutex makes it unwind, or its callback is called.
  pub process-paths :
      (assert_mutex_good w.cq.mutex_address addr ≡ panics
        → P (set_mutex (unwind_guard w.mutex) w, panicked))
      → ((a : ℕ)
          → assert_mutex_good w.cq.mutex_address addr ≡ value a
          → (exclusive w).front_locked ≡ true
          → P (start_waiting i (storing a w) v task))
      → ((a : ℕ)
          → assert_mutex_good w.cq.mutex_address addr ≡ value a
          → (exclusive w).front_locked ≡ false
          → P (unwind (at_front (storing a w))))
      → ((a : ℕ)
          → assert_mutex_good w.cq.mutex_address addr ≡ value a
          → (exclusive w).front_locked ≡ false
          → P (at_front (storing a w), running Handle.new (task v)))
      → P (process addr i w v task)
  process-paths refused waits unwinds runs = process-cases P i w v task addr refused (λ a e.
      try_process_unchecked-cases P i (storing a w) v task (waits a e) (λ free.
        start_processing-cases P (at_front (storing a w)) task v (unwinds a e free)
          (runs a e free)))

module _ {c : Client} (P : World c × Pc c → Type 0) (i : ℕ) (w : World c) (task : ProcessTask c)
    (b : Bool) {r : World c × Pc c} (e : resume i w task b ≡ some r) where
  -- And at the ends of the three paths of a woken thread, which has popped `t`: poison makes it unwind,
  -- its callback is called on the value in `t`, or the call returns what has become of the value.
  pub resume-paths :
      ((t : ErasedTask c.Value) (rest : List (ErasedTask c.Value))
        → (exclusive w).queue ≡ t ∷ rest
        → P (unwind (after_pop i w task b rest)))
      → ((t : ErasedTask c.Value) (rest : List (ErasedTask c.Value))
          → (exclusive w).queue ≡ t ∷ rest
          → (v : c.Value) → t.value ≡ some v
          → P (after_pop i w task b rest, running Handle.new (task v)))
      → ((t : ErasedTask c.Value) (rest : List (ErasedTask c.Value))
          → (exclusive w).queue ≡ t ∷ rest
          → (result : ProcessResult c.Return) → P (after_pop i w task b rest, settling result))
      → P r
  resume-paths unwinds runs settles =
      let (t, rest, eq, res) = resume-some i w task b e in
      subst P (sym res) (
        after_wait-cases P (after_pop i w task b rest) task t.value b (unwinds t rest eq)
          (runs t rest eq) (λ result _. settles t rest eq result))
