-- ===== src/Ending/Calm.antt =====
-- Calls whose callbacks neither panic nor loop: they stay so, and they lose no lock.
use contention_queue.Prelude.{
  update-cases, ℕ, ◌≡◌, ◌≢◌, refl, sym, subst, ap, Option, none, some, arith,
}
use contention_queue.Interface.{Client, Callback}
use contention_queue.Poisoning.{Outcome, value, ignore_poison, lock, unwind_guard}
use contention_queue.Handle
use contention_queue.Handle.{QueueHandle}
use contention_queue.Handle.Values.{peek_returns, pop-keeps}
use contention_queue.World.{World, Pc, exclusive, set_exclusive, set_mutex, running, failing}
use contention_queue.Process.{start_waiting, unwind}
use contention_queue.Process.Paths.{process-paths, resume-paths}
use contention_queue.Process.Branches.{lock_and_process-cases}
use contention_queue.Process.HandOver.{settle-some, fail-some}
use contention_queue.Run.{run_callback, answer, unlock, re_lock}
use contention_queue.System.{
  System, Move, Reach, later, pick, locks, lock_panics, enters, waits_again, resumes, runs,
  re_locks, settles, fails, client_unlock, client_panic, drops, gives_back, catches,
}
use contention_queue.Invariant.Moves.{Reach-Inv, Move-Effect, handle-Popped}
use contention_queue.Finish.{Finishes, Calm}
use contention_queue.Finish.Moves.{holder-before}
use contention_queue.Ending.{Advances, Onward, onward}

module _ {c : Client} where
  -- A thread that will not panic or loop in a callback, and holds no lock where it unwinds.
  abbrev pub IsFine : World c × Pc c → Type 0
  IsFine r = Calm r.1 × (r.1 ≡ failing → r.0.mutex.holder ≡ none)

  answer-Fine :
      (w : World c) (h : QueueHandle) (k : Option c.Value → Callback c)
      (x : Outcome (Option c.Value)) (o : Option c.Value)
      → x ≡ value o
      → ((o : Option c.Value) → Finishes (k o))
      → IsFine (answer w h k x)
  answer-Fine w h k x o e never =
      subst (λ y. IsFine (answer w h k y)) (sym e) (never o, λ at. absurd (ground arith))

module _ {c : Client} {addr : ℕ} {s : System c} (r : Reach addr s) (i : ℕ) where
  run-Fine :
      (h : QueueHandle) (k : Callback c)
      → s.pc i ≡ running h k
      → Finishes k
      → IsFine (run_callback s.world h k)
  unfolding run_callback unlock
  run-Fine h (Callback.return x) at never = (tt, λ e. absurd (ground arith))
  run-Fine h Callback.panic at never = absurd never
  run-Fine h Callback.again at never = absurd never
  run-Fine h (Callback.peek k) at never =
      let (o, e) =
        peek_returns h (exclusive s.world) (handle-Popped s.world i (Reach-Inv r).front at) in
      answer-Fine s.world h k (Handle.peek h (exclusive s.world)) o e never
  run-Fine h (Callback.pop k) at never =
      let got = pop-keeps h (exclusive s.world) (handle-Popped s.world i (Reach-Inv r).front at) in
      answer-Fine (set_exclusive (Handle.pop h (exclusive s.world)).2 s.world)
        (Handle.pop h (exclusive s.world)).1 k (Handle.pop h (exclusive s.world)).0 got.0
        (ap (λ x. x.0) got.3) never
  run-Fine h (Callback.mutex_state k) at never = (never _, λ e. absurd (ground arith))
  run-Fine h (Callback.set_mutex_state m k) at never = (never, λ e. absurd (ground arith))
  run-Fine h (Callback.front_state k) at never = (never _, λ e. absurd (ground arith))
  run-Fine h (Callback.set_front_state f k) at never = (never, λ e. absurd (ground arith))
  run-Fine h (Callback.unlocked k) at never = (never, λ e. absurd (ground arith))
  run-Fine h (Callback.is_queue_poisoned k) at never = (never _, λ e. absurd (ground arith))
  run-Fine h (Callback.clear_queue_poison k) at never = (never, λ e. absurd (ground arith))

  Move-Fine :
      {w : World c} {p p' : Pc c}
      → s.pc i ≡ p
      → (m : Move addr i s.world p w p') → Advances m
      → Calm p
      → IsFine (w, p')
  unfolding start_waiting unwind unwind_guard re_lock
  Move-Fine at client_unlock on calm = (tt, λ e. absurd (ground arith))
  Move-Fine at client_panic on calm = (tt, λ e. absurd (ground arith))
  Move-Fine at (locks {v} {task} free) on calm =
      lock_and_process-cases IsFine i s.world v task (tt, λ e. absurd (ground arith))
        (calm, λ e. absurd (ground arith))
  Move-Fine at (lock_panics busy) on calm = (tt, λ e. absurd (ground arith))
  Move-Fine at (enters {v} {task}) on calm =
      process-paths IsFine i s.world v task addr (λ _. (tt, λ e. absurd (ground arith)))
        (λ a e l. (calm, λ x. absurd (ground arith))) (λ a e l. (tt, λ x. refl))
        (λ a e l. (calm v, λ x. absurd (ground arith)))
  Move-Fine at (waits_again free live awake turn) on calm = (calm, λ e. absurd (ground arith))
  Move-Fine at (resumes {task} {s = ts} {b} {r = x} free live awake turn e) on calm =
      let w : World c = set_mutex (ignore_poison (lock i s.world.mutex)) s.world in
      resume-paths IsFine i w task b e (λ t rest q. (tt, λ x. refl))
        (λ t rest q v has. (calm v, λ x. absurd (ground arith)))
        (λ t rest q result. (tt, λ x. absurd (ground arith)))
  Move-Fine at (runs {h} {k}) on calm = run-Fine h k at calm
  Move-Fine at (re_locks o free) on calm = (calm o, λ e. absurd (ground arith))
  Move-Fine at (settles {result} {r = x} e) on calm =
      let (w, over, eq) = settle-some s.world result e in
      subst IsFine (sym eq) (tt, λ e. absurd (ground arith))
  Move-Fine at (fails {r = x} free e) on calm =
      let (w, over, eq) = fail-some i s.world e in
      subst IsFine (sym eq) (tt, λ e. absurd (ground arith))
  Move-Fine at drops on calm = (tt, λ e. absurd (ground arith))
  Move-Fine at gives_back on calm = (tt, λ e. absurd (ground arith))
  Move-Fine at catches on calm = (tt, λ e. absurd (ground arith))
  Move-Fine at _ on calm = absurd on

-- A reachable state in which no callback will panic or loop, and no thread has lost a guard to a panic.
pub record IsCalm {c : Client} (addr : ℕ) (s : System c) : Type 0 where
  pub reach : Reach addr s
  pub calm : (j : ℕ) → Calm (s.pc j)
  pub sound : (j : ℕ) → s.world.mutex.holder ≡ some j → s.pc j ≢ failing

module _ {c : Client} {addr : ℕ} where
  pub Onward-Calm : {s t : System c} → IsCalm addr s → Onward addr s t → IsCalm addr t
  Onward-Calm {s} before (onward i {w} {p} m on) = record {
    reach = later before.reach (pick i m);
    calm = update-cases s.pc i (λ j q. Calm q) p fine.0 (λ j ne. before.calm j);
    sound = λ j held.
        update-cases s.pc i (λ k q. w.mutex.holder ≡ some k → q ≢ failing) p
          (λ mine lost. ground (arith, mine, fine.1 lost))
          (λ k ne theirs. before.sound k (
            holder-before i k (Move-Effect (Reach-Inv before.reach).front refl m).lock
              (λ e. ne (sym e)) theirs))
          j held;
  }
    where
      fine : IsFine (w, p)
      fine = Move-Fine before.reach i refl m on (before.calm i)
