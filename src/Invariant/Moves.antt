-- ===== src/Invariant/Moves.antt =====
-- Every move of the system has an effect on the lock and on the front permission, and keeps the
-- invariant; so it holds in every state that can be reached.
use contention_queue.Prelude.{ℕ, ◌≡◌, ◌⊎◌, refl, sym, subst, ap, inl, true, arith}
use contention_queue.Interface.{Client, PanicOptions, Callback}
use contention_queue.Poisoning.{drop_guard, unwind_guard}
use contention_queue.Handle.{QueueHandle}
use contention_queue.Shape.{Popped}
use contention_queue.Queue.{new_with_options}
use contention_queue.World.{World, exclusive, Pc, running}
use contention_queue.Process.Branches.{ignore_poison-lock}
use contention_queue.Process.Flags.{is_queue_poisoned-Visited, clear_queue_poison-Visited}
use contention_queue.System.{
  System, Move, client_lock, client_write, client_unlock, client_panic, client_clear, calls,
  passes_guard, locks, lock_panics, enters, wakes_spuriously, waits_again, resumes, runs, re_locks,
  repeats, writes_unlocked, settles, fails, drops, gives_back, catches, asserts, asserts_unlocked,
  asks, clears, asks_unlocked, clears_unlocked, refused, Step, pick, Reach, start, later, init,
}
use contention_queue.Invariant.{
  has_front, Cursor, Permission, released, held, granted, LockInv, FrontInv,
}
use contention_queue.Invariant.Lock.{LockEffect, keeps, takes, LockEffect-LockInv}
use contention_queue.Invariant.Front.Effects.{FrontEffect-FrontInv}
use contention_queue.Invariant.Front.Waiters.{Cursor-at}
use contention_queue.Invariant.Front.Moved.{true-ne-false}
use contention_queue.Invariant.Effect.{Effect}
use contention_queue.Invariant.Effect.Outside.{visit-Effect, client-Effect, assert-Effect}
use contention_queue.Invariant.Effect.Calls.{lock_and_process-Effect, process-Effect}
use contention_queue.Invariant.Effect.Waits.{notify-Effect, wait-Effect, resume-Effect}
use contention_queue.Invariant.Effect.Turns.{
  run-Effect, repeat-Effect, write-Effect, re_lock-Effect, settle-Effect, fail-Effect,
}

pub record Inv {c : Client} (addr : ℕ) (s : System c) : Type 0 where
  pub lock : LockInv s.world.mutex.holder s.pc
  pub front : FrontInv (exclusive s.world) s.world.frames s.pc
  pub address : (s.world.cq.mutex_address ≡ 0) ⊎ (s.world.cq.mutex_address ≡ addr)

-- The thread that runs a callback has the permission, so its index counts the popped tasks.
pub running-Popped :
    {c : Client} (w : World c) {pc : ℕ → Pc c} (i : ℕ)
    → FrontInv (exclusive w) w.frames pc
    → has_front (pc i) ≡ true
    → (k : ℕ) × Cursor (pc i) k × Popped k (exclusive w).queue
running-Popped w {pc} i inv hf = go inv.permission
  where
    go :
        Permission (exclusive w) w.frames pc
        → (k : ℕ) × Cursor (pc i) k × Popped k (exclusive w).queue
    go (released l e n) = absurd (true-ne-false hf (n i))
    go (held h k l hh un cu po asl) = (k, Cursor-at pc h i k (sym (un i hf)) cu, po)
    go (granted k t r l e n po aw asl) = absurd (true-ne-false hf (n i))

-- The queue has the shape that the handle of thread `i` expects.
pub handle-Popped :
    {c : Client} (w : World c) {pc : ℕ → Pc c} (i : ℕ) {h : QueueHandle} {k : Callback c}
    → FrontInv (exclusive w) w.frames pc
    → pc i ≡ running h k
    → Popped h.next_idx (exclusive w).queue
handle-Popped {c} w i {h} inv at =
    let found = running-Popped w i inv (ap has_front at) in
    subst (λ n. Popped n (exclusive w).queue)
      (sym (subst (λ (p : Pc c). Cursor p found.0) at found.1)) found.2

module _ {c : Client} {addr i : ℕ} {w : World c} {pc : ℕ → Pc c}
    (inv : FrontInv (exclusive w) w.frames pc) where
  pub Move-Effect :
      {p p' : Pc c} {w' : World c} → pc i ≡ p → Move addr i w p w' p' → Effect addr i w p w' p'
  unfolding drop_guard unwind_guard
  Move-Effect at (client_lock free) =
      client-Effect addr i w _ _ _
        (takes free (ap (λ m. m.holder) (ignore_poison-lock i w.mutex)) refl) refl refl (refl, refl)
        (refl, refl) (λ _. tt)
  Move-Effect at (client_write m) =
      client-Effect addr i w _ _ _ (keeps refl refl (λ e. cc)) refl refl (refl, refl) (refl, refl)
        (λ _. tt)
  Move-Effect at client_unlock =
      client-Effect addr i w _ _ _ (LockEffect.drops refl refl refl) refl refl (refl, refl)
        (refl, refl) (λ _. tt)
  Move-Effect at client_panic =
      client-Effect addr i w _ _ _ (LockEffect.drops refl refl refl) refl refl (refl, refl)
        (refl, refl) (λ _. tt)
  Move-Effect at client_clear =
      client-Effect addr i w _ _ _ (keeps refl refl (λ e. cc)) refl refl (refl, refl) (refl, refl)
        (λ _. tt)
  Move-Effect at (calls v task) =
      client-Effect addr i w _ _ _ (keeps refl refl (λ e. cc)) refl refl (refl, refl) (refl, refl)
        (λ _. tt)
  Move-Effect at (passes_guard v task) =
      client-Effect addr i w _ _ _ (keeps refl refl (λ e. cc)) refl refl (refl, refl) (refl, refl)
        (λ _. tt)
  Move-Effect at (locks {v} {task} free) = lock_and_process-Effect addr i w v task free
  Move-Effect at (lock_panics busy) =
      client-Effect addr i w _ _ _ (keeps refl refl (λ e. cc)) refl refl (refl, refl) (refl, refl)
        (λ _. tt)
  Move-Effect at (enters {v} {task}) = process-Effect addr i w v task
  Move-Effect at (wakes_spuriously {task} {s} fi) = notify-Effect addr i w task s fi
  Move-Effect at (waits_again {task} {s} free fi bl n) = wait-Effect addr i w task s fi n
  Move-Effect at (resumes {task} {s} {b} {r} free fi bl turn e) =
      resume-Effect addr i w task s b r free fi turn e
  Move-Effect at (runs {h} {k}) = run-Effect addr i w h k (handle-Popped w i inv at)
  Move-Effect at (repeats {h} k) = repeat-Effect addr i w h k
  Move-Effect at (writes_unlocked {h} {k} f) = write-Effect addr i w h k f
  Move-Effect at (re_locks {h} {k} o free) = re_lock-Effect addr i w h k o free
  Move-Effect at (settles {result} {r} e) = settle-Effect addr i w result r e
  Move-Effect at (fails {r} free e) = fail-Effect addr i w r free e
  Move-Effect at drops =
      client-Effect addr i w _ _ _ (LockEffect.drops refl refl refl) refl refl (refl, refl)
        (refl, refl) (λ _. tt)
  Move-Effect at gives_back =
      client-Effect addr i w _ _ _ (keeps refl refl (λ e. cc)) refl refl (refl, refl) (refl, refl)
        (λ _. tt)
  Move-Effect at catches =
      client-Effect addr i w _ _ _ (keeps refl refl (λ e. cc)) refl refl (refl, refl) (refl, refl)
        (λ _. tt)
  Move-Effect at (asserts {a} e) = assert-Effect addr i w _ a e
  Move-Effect at (asserts_unlocked {a = a} e) = assert-Effect addr i w _ a e
  Move-Effect at (asks {r} free e) =
      visit-Effect addr i w r.1 _ (exclusive w) free refl refl refl
        (is_queue_poisoned-Visited addr i w r e).1
  Move-Effect at (asks_unlocked {r} free e) =
      visit-Effect addr i w r.1 _ (exclusive w) free refl refl refl
        (is_queue_poisoned-Visited addr i w r e).1
  Move-Effect at (clears {w'} free e) =
      visit-Effect addr i w w' _ _ free refl refl refl (clear_queue_poison-Visited addr i w w' e)
  Move-Effect at (clears_unlocked {h} {k} {w'} free e) =
      visit-Effect addr i w w' _ _ free refl refl refl (clear_queue_poison-Visited addr i w w' e)
  Move-Effect at (refused e) =
      client-Effect addr i w _ _ _ (keeps refl refl (λ e. cc)) refl refl (refl, refl) (refl, refl)
        (λ _. tt)

-- Every step keeps the invariant.
pub Step-Inv : {c : Client} {addr : ℕ} {s t : System c} → Step addr s t → Inv addr s → Inv addr t
Step-Inv {addr = addr} {s} (pick i {w = w'} {p = p'} m) inv = record {
  lock = LockEffect-LockInv inv.lock e.lock refl;
  front = FrontEffect-FrontInv i p' inv.front e.front;
  address = ground (arith, e.address, inv.address);
}
  where
    e : Effect addr i s.world (s.pc i) w' p'
    e = Move-Effect inv.front refl m

init-Inv :
    {c : Client} (addr : ℕ) (f : c.FrontState) (m : c.MutexState) (options : PanicOptions)
    → Inv addr (init {c = c} f m options)
unfolding new_with_options
init-Inv addr f m options = record {
  lock = record { locked = λ j h. cc; locker = λ j h. cc };
  front = record {
    distinct = tt;
    queued = λ j. refl;
    live = λ j. refl;
    permission = released refl refl (λ j. refl);
  };
  address = inl refl;
}

-- The invariant holds in every state that can be reached.
pub Reach-Inv : {c : Client} {addr : ℕ} {s : System c} → Reach addr s → Inv addr s
Reach-Inv {addr = addr} (start f m options) = init-Inv addr f m options
Reach-Inv (later r st) = Step-Inv st (Reach-Inv r)
