-- ===== src/Mutexes/Outside.antt =====
-- What a call with a mutex does to the stored address, and to the queue if the mutex is refused.
use contention_queue.Prelude.{ℕ, ◌≡◌, ◌⊎◌, inl, inr, refl, Bool, true, arith}
use contention_queue.Interface.{Client, ProcessTask}
use contention_queue.Poisoning.{value}
use contention_queue.Queue.{assert_mutex_good}
use contention_queue.Queue.Address.{assert_mutex_good-value}
use contention_queue.World.{World, Pc}
use contention_queue.Process.{is_queue_poisoned, clear_queue_poison, process, start_waiting, unwind}
use contention_queue.Process.Paths.{process-paths}
use contention_queue.Process.Branches.{lock_and_process-cases, Outcome-cases}
use contention_queue.Process.Flags.{is_queue_poisoned-Visited, clear_queue_poison-Visited}
use contention_queue.System.{
  writes_unlocked, repeats, Move, locks, enters, wakes_spuriously, waits_again, drops, gives_back,
  resumes, runs, re_locks, settles, fails, asks, clears, asserts, asserts_unlocked, asks_unlocked,
  clears_unlocked,
}
use contention_queue.Mutexes.{is_outside}

module _ {c : Client} (addr : ℕ) (w : World c) where
  -- A call has left the queue as it was, or it has got past the check of its mutex.
  abbrev pub RefusedOrStored : World c × Pc c → Type 0
  RefusedOrStored r =
      ((r.0.cq ≡ w.cq) × (r.0.frames ≡ w.frames) × (is_outside r.1 ≡ true))
      ⊎ ((r.0.cq.mutex_address ≡ addr) × ((w.cq.mutex_address ≡ 0) ⊎ (w.cq.mutex_address ≡ addr)))

  process_stores :
      (i : ℕ) (v : c.Value) (task : ProcessTask c) → RefusedOrStored (process addr i w v task)
  unfolding start_waiting unwind
  process_stores i v task =
      process-paths RefusedOrStored i w v task addr (λ _. inl (refl, refl, refl))
        (λ a e l. inr (assert_mutex_good-value w.cq.mutex_address addr a e))
        (λ a e l. inr (assert_mutex_good-value w.cq.mutex_address addr a e))
        (λ a e l. inr (assert_mutex_good-value w.cq.mutex_address addr a e))

  is_queue_poisoned-before :
      (i : ℕ) (r : Bool × World c)
      → is_queue_poisoned addr i w ≡ value r
      → (w.cq.mutex_address ≡ 0) ⊎ (w.cq.mutex_address ≡ addr)
  unfolding is_queue_poisoned
  is_queue_poisoned-before i r e =
      elim (Outcome-cases (assert_mutex_good w.cq.mutex_address addr)) [
        | inl refused ↦ absurd (ground arith)
        | inr (a, good) ↦ (assert_mutex_good-value w.cq.mutex_address addr a good).1
      ]

  clear_queue_poison-before :
      (i : ℕ) (w' : World c)
      → clear_queue_poison addr i w ≡ value w'
      → (w.cq.mutex_address ≡ 0) ⊎ (w.cq.mutex_address ≡ addr)
  unfolding clear_queue_poison
  clear_queue_poison-before i w' e =
      elim (Outcome-cases (assert_mutex_good w.cq.mutex_address addr)) [
        | inl refused ↦ absurd (ground arith)
        | inr (a, good) ↦ (assert_mutex_good-value w.cq.mutex_address addr a good).1
      ]

pub outside-Move :
    {c : Client} {addr i : ℕ} {w w' : World c} {p p' : Pc c}
    → Move addr i w p w' p'
    → is_outside p ≡ true
    → RefusedOrStored addr w (w', p')
outside-Move {addr = addr} {i} {w} (locks {v} {task} free) out =
    lock_and_process-cases (RefusedOrStored addr w) i w v task (inl (refl, refl, refl))
      (inl (refl, refl, refl))
outside-Move {addr = addr} {i} {w} (enters {v} {task}) out = process_stores addr w i v task
outside-Move {addr = addr} {w = w} (asserts {a} e) out =
    inr (assert_mutex_good-value w.cq.mutex_address addr a e)
outside-Move {addr = addr} {i} {w} (asks {r} free e) out =
    inr ((is_queue_poisoned-Visited addr i w r e).1.address, is_queue_poisoned-before addr w i r e)
outside-Move {addr = addr} {i} {w} {w'} (clears free e) out =
    inr
      ((clear_queue_poison-Visited addr i w w' e).address, clear_queue_poison-before addr w i w' e)
outside-Move (wakes_spuriously live) out = absurd (ground arith)
outside-Move (waits_again free live awake n) out = absurd (ground arith)
outside-Move (resumes free live awake turn e) out = absurd (ground arith)
outside-Move runs out = absurd (ground arith)
outside-Move (repeats k) out = absurd (ground arith)
outside-Move (writes_unlocked f) out = absurd (ground arith)
outside-Move (re_locks output free) out = absurd (ground arith)
outside-Move (settles e) out = absurd (ground arith)
outside-Move (fails free e) out = absurd (ground arith)
outside-Move drops out = absurd (ground arith)
outside-Move gives_back out = absurd (ground arith)
outside-Move (asserts_unlocked e) out = absurd (ground arith)
outside-Move (asks_unlocked free e) out = absurd (ground arith)
outside-Move (clears_unlocked free e) out = absurd (ground arith)
outside-Move _ out = inl (refl, refl, refl)
