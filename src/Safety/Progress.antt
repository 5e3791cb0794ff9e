-- ===== src/Safety/Progress.antt =====
-- No wakeup is lost and no thread waits in vain, unless a thread keeps the lock for good.
use contention_queue.Prelude.{
  ℕ, ◌≡◌, ◌≢◌, refl, sym, subst, ap, ◌∙◌, ◌⊎◌, inl, inr, true, false, Bool, Option, none, some,
  List, ◌∷◌, arith, Option-cases,
}
use contention_queue.Interface.{Client, ProcessTask, ProcessResult}
use contention_queue.TaskState.{TaskState, wait_until_at_front}
use contention_queue.TaskState.Bits.{wait_until_at_front-Awake}
use contention_queue.Task.{ErasedTask}
use contention_queue.Shape.{owners, owns, Awake}
use contention_queue.World.{
  World, exclusive, Pc, waiting, running, unlocked, settling, failing, guarded, entering, returned,
}
use contention_queue.Queue.{wait_result}
use contention_queue.Process.{resume, after_wait, unwind}
use contention_queue.Process.Paths.{resume-paths}
use contention_queue.Process.Resume.{after_wait-cases}
use contention_queue.System.{
  System, Reach, Move, re_locks, resumes, fails, client_unlock, enters, runs, settles, drops,
}
use contention_queue.Invariant.{
  has_front, is_waiting, holds_lock, FrontInv, Permission, released, held, granted,
}
use contention_queue.Invariant.Front.Waiters.{waiter-queue_ne}
use contention_queue.Invariant.Moves.{Reach-Inv}
use contention_queue.Ending.{GoesOn}
use contention_queue.Safety.Memory.{hands_over, pops_own_task}

-- A frame that is awake has a state byte and no blocked thread.
Awake-some :
    (o : Option TaskState)
    → Awake o
    → (ts : TaskState) × (o ≡ some ts)
      × (ts.condvar.blocked ≡ false)
      × (wait_until_at_front ts ≢ none)
Awake-some none a = absurd a
Awake-some (some ts) a = (ts, refl, a.1, wait_until_at_front-Awake ts a)

-- Whatever a woken thread finds, it has the permission.
pub after_wait-front :
    {c : Client} (w : World c) (task : ProcessTask c) (o : Option c.Value) (b : Bool)
    → has_front (after_wait w task (wait_result o b)).1 ≡ true
unfolding unwind
after_wait-front w task o b =
    after_wait-cases (λ x. has_front x.1 ≡ true) w task o b refl (λ v e. refl) (λ x e. refl)

-- A thread that leaves the wait has the permission.
pub resume-front :
    {c : Client} (i : ℕ) (w : World c) (task : ProcessTask c) (b : Bool) {r : World c × Pc c}
    → resume i w task b ≡ some r
    → has_front r.1 ≡ true
unfolding unwind
resume-front i w task b e =
    resume-paths (λ x. has_front x.1 ≡ true) i w task b e (λ t rest q. refl)
      (λ t rest q v has. refl) (λ t rest q result. refl)

-- A waiting thread still waits after its move, or has got the permission.
pub Move-waiting :
    {c : Client} {addr i : ℕ} {w w' : World c} {p p' : Pc c}
    → Move addr i w p w' p'
    → is_waiting p ≡ true
    → (is_waiting p' ≡ true) ⊎ (has_front p' ≡ true)
Move-waiting {i = i} (resumes {task} {b = b} free live awake turn e) at =
    inr (resume-front i _ task b e)
Move-waiting _ at = ground (arith, at)

module _ {c : Client} {addr : ℕ} {s : System c} (r : Reach addr s) where
  -- Some thread has the permission, or the thread of the front task has been granted it.
  abbrev pub HasPermitted : Type 0
  HasPermitted =
      ((j : ℕ) × (has_front (s.pc j) ≡ true))
      ⊎ ((t : ErasedTask c.Value) × (rest : List (ErasedTask c.Value)) × (ts : TaskState)
          × ((exclusive s.world).queue ≡ t ∷ rest)
          × (is_waiting (s.pc t.state) ≡ true)
          × (s.world.frames t.state ≡ some ts)
          × (ts.condvar.blocked ≡ false)
          × (wait_until_at_front ts ≢ none))

  -- In every reachable state in which a thread waits, some thread has the front permission, or the
  -- thread of the front task has been notified, is not blocked and finds its front bit set.
  pub no_lost_wakeup : (i : ℕ) → is_waiting (s.pc i) ≡ true → HasPermitted
  no_lost_wakeup i wp = go inv.permission
    where
      inv : FrontInv (exclusive s.world) s.world.frames s.pc
      inv = (Reach-Inv r).front

      owns_first : (x : ℕ) (xs : List ℕ) → owns x (x ∷ xs) ≡ true
      owns_first x xs = ground arith

      go : Permission (exclusive s.world) s.world.frames s.pc → HasPermitted
      go (released l e n) = absurd (waiter-queue_ne inv i e wp)
      go (held h k l hh un cu po asl) = inl (h, hh)
      go (granted k t rest l e n po aw asl) =
          let (ts, live, awake, turn) = Awake-some (s.world.frames t.state) aw in
          inr (
            t,
            rest,
            ts,
            e,
            sym (inv.queued t.state)
                ∙ ap (λ xs. owns t.state (owners xs)) e
                ∙ owns_first t.state (owners rest),
            live,
            awake,
            turn,
          )

  -- A move that goes on with a call, of some thread that has the permission or the lock, or that gets
  -- the permission.
  abbrev pub Progress : Type 0
  Progress =
      (j : ℕ) × (w' : World c) × (p' : Pc c) × (m : Move addr j s.world (s.pc j) w' p') × GoesOn m
      × ((holds_lock (s.pc j) ≡ true) ⊎ ((has_front (s.pc j) ≡ true) ⊎ (has_front p' ≡ true)))

  by_move :
      (j : ℕ) {p p' : Pc c} {w' : World c}
      → s.pc j ≡ p
      → (m : Move addr j s.world p w' p') → GoesOn m
      → (holds_lock (s.pc j) ≡ true) ⊎ ((has_front (s.pc j) ≡ true) ⊎ (has_front p' ≡ true))
      → Progress
  by_move j {p' = p'} {w' = w'} at m on why =
      let (m', on') = subst (λ p. (m : Move addr j s.world p w' p') × GoesOn m) (sym at) (m, on) in
      (j, w', p', m', on', why)

  -- A thread with a guard can go on.
  pub holder_moves : (j : ℕ) → holds_lock (s.pc j) ≡ true → Progress
  holder_moves j own = go (s.pc j) refl own
    where
      go : (p : Pc c) → s.pc j ≡ p → holds_lock p ≡ true → Progress
      go guarded at h = by_move j at client_unlock tt (inl own)
      go (entering v task) at h = by_move j at enters tt (inl own)
      go (running h k) at x = by_move j at runs tt (inl own)
      go (settling result) at h = by_move j at (settles (hands_over r j result).0.1) tt (inl own)
      go (returned result) at h = by_move j at drops tt (inl own)
      go _ at h = absurd (ground arith)

  -- With the lock free, the thread with the permission can go on.
  pub front_moves : s.world.mutex.holder ≡ none → (j : ℕ) → has_front (s.pc j) ≡ true → Progress
  front_moves free j hf = go (s.pc j) refl hf
    where
      busy : {p : Pc c} → s.pc j ≡ p → holds_lock p ≡ true → ⊥
      busy at h = let taken = (Reach-Inv r).lock.locked j (ap holds_lock at ∙ h) in ground arith

      go : (p : Pc c) → s.pc j ≡ p → has_front p ≡ true → Progress
      go (unlocked h k) at x = by_move j at (re_locks none free) tt (inr (inl hf))
      go failing at x =
          by_move j at (fails free (hands_over r j ProcessResult.processed_elsewhere).1.1) tt
            (inr (inl hf))
      go (running h k) at x = absurd (busy at refl)
      go (settling result) at x = absurd (busy at refl)
      go _ at h = absurd (ground arith)

  -- A thread that has been granted the permission can take it.
  granted_moves :
      s.world.mutex.holder ≡ none
      → (j : ℕ) (ts : TaskState) → is_waiting (s.pc j) ≡ true
      → s.world.frames j ≡ some ts
      → ts.condvar.blocked ≡ false
      → wait_until_at_front ts ≢ none
      → Progress
  granted_moves free j ts wp live bl turn = go (s.pc j) refl wp
    where
      go : (p : Pc c) → s.pc j ≡ p → is_waiting p ≡ true → Progress
      go (waiting task) at h = elim (Option-cases (wait_until_at_front ts)) [
        | inl e ↦ absurd (turn e)
        | inr (b, e) ↦
            let own = pops_own_task r j task ts b at live e in
            by_move j at (resumes free live bl e own.4) tt
              (inr (inr (after_wait-front _ task own.0.value b)))
      ]
      go _ at h = absurd (ground arith)

  -- In every reachable state in which a thread waits and no thread has lost a locked guard to a
  -- panic, some thread can go on with its call that holds the lock, has the permission or gets it.
  pub waiters_progress :
      (i : ℕ)
      → is_waiting (s.pc i) ≡ true
      → ((j : ℕ) → s.world.mutex.holder ≡ some j → s.pc j ≢ failing)
      → Progress
  waiters_progress i wp sound = elim (Option-cases s.world.mutex.holder) [
    | inr (j, e) ↦ elim ((Reach-Inv r).lock.locker j e) [
      | inl h ↦ holder_moves j h
      | inr lost ↦ absurd (sound j e lost)
    ]
    | inl free ↦ elim (no_lost_wakeup i wp) [
      | inl (j, hf) ↦ front_moves free j hf
      | inr (t, rest, ts, e, w, live, bl, turn) ↦ granted_moves free t.state ts w live bl turn
    ]
  ]
