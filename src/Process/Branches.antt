-- ===== src/Process/Branches.antt =====
-- The branches of the functions of `Process`, each with the condition under which it is taken.
use contention_queue.Prelude.{
  ℕ, ◌≡◌, refl, ◌⊎◌, inl, inr, ◌&&◌, some, true, false, arith, Bool-cases, subst, sym,
}
use contention_queue.Interface.{Client, ProcessTask}
use contention_queue.Poisoning.{
  Mutex, Outcome, value, panics, unwrap_poison, ignore_poison, lock, unwind_guard,
}
use contention_queue.Queue.{assert_mutex_good, try_acquire_front_fast}
use contention_queue.World.{World, exclusive, set_exclusive, set_mutex, Pc, entering, panicked}
use contention_queue.Process.{
  lock_and_process, process, try_process_unchecked, start_processing, start_waiting,
}

unfoldable pub Outcome-cases {ℓ} :
    {A : Type ℓ} (o : Outcome A) → (o ≡ panics) ⊎ ((a : A) × (o ≡ value a))
Outcome-cases (value a) = inr (a, refl)
Outcome-cases panics = inl refl

pub ignore_poison-lock {ℓ} :
    {M : Type ℓ} (i : ℕ) (m : Mutex M) → ignore_poison (lock i m) ≡ record m { holder = some i }
unfolding ignore_poison lock
ignore_poison-lock i m = ground arith

module _ {c : Client} (P : World c × Pc c → Type 0) (i : ℕ) (w : World c) (v : c.Value)
    (task : ProcessTask c) where
  pub lock_and_process-cases :
      P (set_mutex (unwind_guard w.mutex) w, panicked)
      → P (set_mutex (record (w.mutex) { holder = some i }) w, entering v task)
      → P (lock_and_process i w v task)
  unfolding lock_and_process unwrap_poison lock
  lock_and_process-cases bad good =
      elim (Bool-cases (w.cq.options.unwrap_mutex_poison && w.mutex.is_poisoned)) [
        | inl e ↦
            let eq : lock_and_process i w v task ≡ (set_mutex (unwind_guard w.mutex) w, panicked) =
              ground arith in
            subst P (sym eq) bad
        | inr e ↦
            let eq : lock_and_process i w v task
                ≡ (set_mutex (record (w.mutex) { holder = some i }) w, entering v task) =
              ground arith in
            subst P (sym eq) good
      ]

  pub try_process_unchecked-cases :
      ((exclusive w).front_locked ≡ true → P (start_waiting i w v task))
      → ((exclusive w).front_locked ≡ false
          → P (
              start_processing
                (set_exclusive (record (exclusive w) { front_locked = true }) w)
                v
                task))
      → P (try_process_unchecked i w v task)
  unfolding try_process_unchecked try_acquire_front_fast
  try_process_unchecked-cases waits starts = elim (Bool-cases (exclusive w).front_locked) [
    | inl e ↦
        let eq : try_process_unchecked i w v task ≡ start_waiting i w v task = ground arith in
        subst P (sym eq) (waits e)
    | inr e ↦
        let eq : try_process_unchecked i w v task
            ≡ start_processing (set_exclusive (record (exclusive w) { front_locked = true }) w) v
                task =
          ground arith in
        subst P (sym eq) (starts e)
  ]

  pub process-cases :
      (addr : ℕ)
      → (assert_mutex_good w.cq.mutex_address addr ≡ panics
          → P (set_mutex (unwind_guard w.mutex) w, panicked))
      → ((a : ℕ)
          → assert_mutex_good w.cq.mutex_address addr ≡ value a
          → P (
              try_process_unchecked i
                (record w { cq = record (w.cq) { mutex_address = a } })
                v
                task))
      → P (process addr i w v task)
  unfolding process
  process-cases addr bad good = elim (Outcome-cases (assert_mutex_good w.cq.mutex_address addr)) [
    | inl e ↦ rw (e, process) (bad e)
    | inr (a, e) ↦ rw (e, process) (good a e)
  ]
