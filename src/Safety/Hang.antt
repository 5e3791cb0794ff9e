-- ===== src/Safety/Hang.antt =====
-- What a panic of a callback does: the guard is in a `MaybeUninit` of `try_process_unchecked`, which
-- unwinding does not drop, so the `mutex.lock()` of the `Err` branch waits for its own thread.
use contention_queue.Prelude.{
  ℕ, ◌≡◌, ◌≢◌, refl, sym, subst, ap, ◌∙◌, true, Option, none, some, update, update_self, update_ne,
  arith, ℕ_discrete,
}
use contention_queue.Interface.{Client, Callback}
use contention_queue.Handle.{QueueHandle}
use contention_queue.World.{World, exclusive, Pc, running, failing}
use contention_queue.Run.{run_callback}
use contention_queue.System.{
  System, Move, Step, pick, Steps, here, next, Reach, Reach-Steps, later, fails, wakes_spuriously,
  waits_again, resumes, runs,
}
use contention_queue.Invariant.{has_front, is_waiting, holds_lock, LockInv}
use contention_queue.Invariant.Lock.{LockEffect}
use contention_queue.Invariant.Moves.{Reach-Inv, Move-Effect}
use contention_queue.Safety.{front_exclusion}

-- Thread `i` is at the `mutex.lock()` of the `Err` branch, and holds the lock itself.
pub record IsStuck {c : Client} (i : ℕ) (s : System c) : Type 0 where
  pub failed : s.pc i ≡ failing
  pub locked : s.world.mutex.holder ≡ some i

failing-stays :
    {c : Client} {addr i : ℕ} {w w' : World c} {p p' : Pc c}
    → Move addr i w p w' p'
    → p ≡ failing
    → w.mutex.holder ≢ none
    → ⊥
failing-stays (fails free e) at busy = busy free
failing-stays _ at busy = cc

waiting-stays :
    {c : Client} {addr i : ℕ} {w w' : World c} {p p' : Pc c}
    → Move addr i w p w' p'
    → is_waiting p ≡ true
    → w.mutex.holder ≢ none
    → is_waiting p' ≡ true
waiting-stays (wakes_spuriously fi) at busy = refl
waiting-stays (waits_again free fi bl e) at busy = refl
waiting-stays (resumes free fi bl turn e) at busy = absurd (busy free)
waiting-stays _ at busy = absurd (ground arith)

-- No other thread takes the lock away from thread `i`.
pub holder-stays :
    {c : Client} {h h' : Option ℕ} {pc : ℕ → Pc c} {p p' : Pc c} (i j : ℕ)
    → LockInv h pc
    → LockEffect j h p h' p'
    → pc j ≡ p
    → i ≢ j
    → h ≡ some i
    → h' ≡ some i
holder-stays i j inv (LockEffect.keeps e l f) at ne hi = e ∙ hi
holder-stays i j inv (LockEffect.leaks e l f) at ne hi = e ∙ hi
holder-stays i j inv (LockEffect.takes e e' l) at ne hi = absurd (ground arith)
holder-stays i j inv (LockEffect.drops l e l') at ne hi =
    absurd (ground (arith, inv.locked j, ap holds_lock at))
holder-stays i j inv (LockEffect.visits e e' l) at ne hi = absurd (ground arith)

module _ {c : Client} {addr : ℕ} (i : ℕ) where
  pub Step-IsStuck : {s t : System c} → Reach addr s → Step addr s t → IsStuck i s → IsStuck i t
  Step-IsStuck {s} r (pick j {w = w'} {p = p'} m) stuck = elim (ℕ_discrete i j) [
    | yes e ↦
        absurd
          (failing-stays m (ap s.pc (sym e) ∙ stuck.failed) (λ free. ground (arith, stuck.locked)))
    | no ne ↦ record {
      failed = update_ne s.pc j i p' (λ x. ne (sym x)) ∙ stuck.failed;
      locked =
          holder-stays i j (Reach-Inv r).lock (Move-Effect (Reach-Inv r).front refl m).lock refl ne
            stuck.locked;
    }
  ]

  Step-waiting :
      {s t : System c}
      → Step addr s t
      → IsStuck i s
      → (j : ℕ) → is_waiting (s.pc j) ≡ true
      → is_waiting (t.pc j) ≡ true
  Step-waiting {s} (pick k {w = w'} {p = p'} m) stuck j w = elim (ℕ_discrete k j) [
    | yes e ↦
        let stays =
          waiting-stays m (ap (λ x. is_waiting (s.pc x)) e ∙ w)
            (λ free. ground (arith, stuck.locked)) in
        ground arith
    | no ne ↦ ap is_waiting (update_ne s.pc k j p' ne) ∙ w
  ]

  Steps-IsStuck :
      {s t : System c}
      → Reach addr s
      → Steps addr s t
      → IsStuck i s
      → IsStuck i t × ((j : ℕ) → is_waiting (s.pc j) ≡ true → is_waiting (t.pc j) ≡ true)
  Steps-IsStuck r here stuck = (stuck, λ j w. w)
  Steps-IsStuck r (next steps st) stuck =
      let before = Steps-IsStuck r steps stuck in
      (
        Step-IsStuck (Reach-Steps r steps) st before.0,
        λ j w. Step-waiting st before.0 j (before.1 j w),
      )

  -- If the callback of a running thread panics, then in every later state the thread is still in
  -- the `Err` branch, its lock is still held, `front_locked` is still set, and every thread that
  -- waited is still waiting.
  pub callback_panic-hangs :
      {s u : System c} (h : QueueHandle)
      → Reach addr s
      → s.pc i ≡ running h Callback.panic
      → let (w, p) = run_callback s.world h Callback.panic in
        Steps addr (record { world = w; pc = update s.pc i p }) u
        → (u.pc i ≡ failing)
          × (u.world.mutex.holder ≡ some i)
          × ((exclusive u.world).front_locked ≡ true)
          × ((j : ℕ) → is_waiting (s.pc j) ≡ true → is_waiting (u.pc j) ≡ true)
  unfolding run_callback
  callback_panic-hangs {s} {u} h r at steps =
      let first =
        later r (pick i (subst (λ p. Move addr i s.world p s.world failing) (sym at) runs)) in
      let stuck : IsStuck i (record { world = s.world; pc = update s.pc i failing }) = record {
        failed = update_self s.pc i failing;
        locked = (Reach-Inv r).lock.locked i (ap holds_lock at);
      } in
      let after = Steps-IsStuck first steps stuck in
      (
        after.0.failed,
        after.0.locked,
        (front_exclusion (Reach-Steps first steps) i i (ap has_front after.0.failed)
            (ap has_front after.0.failed)).1,
        λ j w. after.1 j (kept j w),
      )
    where
      kept : (j : ℕ) → is_waiting (s.pc j) ≡ true → is_waiting (update s.pc i failing j) ≡ true
      kept j w = ground (arith, ap is_waiting at)
