-- ===== src/Ending/Goes.antt =====
-- What a move that goes on with a call does to the place of its thread.
use contention_queue.Prelude.{
  ℕ, ◌≡◌, ◌<◌, ◌⊎◌, inl, inr, refl, sym, subst, Option, some, false, arith, update,
}
use contention_queue.Interface.{Client, Callback}
use contention_queue.Poisoning.{Outcome, value, panics, ignore_poison, lock}
use contention_queue.TaskState.{TaskState, wait}
use contention_queue.Handle
use contention_queue.Handle.{QueueHandle}
use contention_queue.World.{World, Pc, exclusive, set_exclusive, set_mutex, set_frames, running}
use contention_queue.Process.{start_waiting, unwind}
use contention_queue.Process.Paths.{process-paths, resume-paths}
use contention_queue.Process.Branches.{lock_and_process-cases}
use contention_queue.Process.HandOver.{settle-some, fail-some}
use contention_queue.Run.{run_callback, answer, unlock, re_lock}
use contention_queue.System.{
  Move, locks, lock_panics, enters, waits_again, resumes, runs, re_locks, settles, fails,
  client_unlock, client_panic, drops, gives_back, catches,
}
use contention_queue.Ending.{Advances, InTree, Below, rank}

module _ {c : Client} where
  -- A woken thread whose turn has not come blocks again, and stands where it stood.
  abbrev pub Blocks : ℕ → World c → Pc c → World c → Pc c → Type 0
  Blocks i w p w' p' =
      (s : TaskState) × (w.frames i ≡ some s)
      × (s.condvar.blocked ≡ false)
      × (w' ≡ set_frames (update w.frames i (some (wait s))) w)
      × (p' ≡ p)

  run-Below :
      (w : World c) (h : QueueHandle) (k : Callback c)
      → InTree k
      → Below (run_callback w h k).1 (running h k)
  unfolding run_callback unlock
  run-Below w h (Callback.peek k) tree = go (Handle.peek h (exclusive w))
    where
      go : (x : Outcome (Option c.Value)) → Below (answer w h k x).1 (running h (Callback.peek k))
      go (value x) = inr (x, refl)
      go panics = inl (omega arith)
  run-Below w h (Callback.pop k) tree =
      go (set_exclusive (Handle.pop h (exclusive w)).2 w) (Handle.pop h (exclusive w)).1
        (Handle.pop h (exclusive w)).0
    where
      go :
          (w : World c) (h' : QueueHandle) (x : Outcome (Option c.Value))
          → Below (answer w h' k x).1 (running h (Callback.pop k))
      go w h' (value x) = inr (x, refl)
      go w h' panics = inl (omega arith)
  run-Below w h (Callback.return r) tree = inl (omega arith)
  run-Below w h Callback.panic tree = inl (omega arith)
  run-Below w h Callback.again tree = absurd tree
  run-Below w h (Callback.mutex_state k) tree = inr (_, refl)
  run-Below w h (Callback.set_mutex_state m k) tree = inr refl
  run-Below w h (Callback.front_state k) tree = inr (_, refl)
  run-Below w h (Callback.set_front_state f k) tree = inr refl
  run-Below w h (Callback.unlocked k) tree = inr refl
  run-Below w h (Callback.is_queue_poisoned k) tree = inr (_, refl)
  run-Below w h (Callback.clear_queue_poison k) tree = inr refl

  pub Move-Below :
      {addr i : ℕ} {w w' : World c} {p p' : Pc c} (m : Move addr i w p w' p')
      → Advances m
      → Below p' p ⊎ Blocks i w p w' p'
  unfolding start_waiting unwind re_lock
  Move-Below client_unlock on = inl (inl (omega arith))
  Move-Below client_panic on = inl (inl (omega arith))
  Move-Below {i = i} {w} {p = p} (locks {v} {task} free) on =
      inl (inl (lock_and_process-cases (λ r. rank r.1 < 8) i w v task (omega arith) (omega arith)))
  Move-Below (lock_panics busy) on = inl (inl (omega arith))
  Move-Below {addr} {i} {w} (enters {v} {task}) on = inl (
      inl (
        process-paths (λ r. rank r.1 < 7) i w v task addr (λ _. omega arith) (λ a e l. omega arith)
          (λ a e l. omega arith) (λ a e l. omega arith)))
  Move-Below {i = i} {w} (waits_again {s = s} free live awake turn) on =
      inr (s, live, awake, refl, refl)
  Move-Below {i = i} {w} (resumes {task} {s} {b} {r} free live awake turn e) on =
      let w₁ : World c = set_mutex (ignore_poison (lock i w.mutex)) w in
      inl (
        inl (
          resume-paths (λ x. rank x.1 < 6) i w₁ task b e (λ t rest q. omega arith)
            (λ t rest q v has. omega arith) (λ t rest q result. omega arith)))
  Move-Below {w = w} (runs {h} {k}) on = inl (run-Below w h k on)
  Move-Below (re_locks {h} {k} o free) on = inl (inr (o, refl))
  Move-Below {w = w} (settles {result} {r} e) on =
      let (w₁, over, eq) = settle-some w result e in
      inl (inl (subst (λ x. rank x.1 < 4) (sym eq) (omega arith)))
  Move-Below {i = i} {w} (fails {r} free e) on =
      let (w₁, over, eq) = fail-some i w e in
      inl (inl (subst (λ x. rank x.1 < 4) (sym eq) (omega arith)))
  Move-Below drops on = inl (inl (omega arith))
  Move-Below gives_back on = inl (inl (omega arith))
  Move-Below catches on = inl (inl (omega arith))
  Move-Below _ on = absurd on

  -- A thread in client code without the lock has nothing to go on with.
  pub Advances-rank :
      {addr i : ℕ} {w w' : World c} {p p' : Pc c} (m : Move addr i w p w' p')
      → Advances m
      → 0 < rank p
  Advances-rank client_unlock on = omega arith
  Advances-rank _ on = ground arith
