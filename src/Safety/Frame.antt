-- ===== src/Safety/Frame.antt =====
-- Which moves write what the mutex protects, and which write the front state.
use contention_queue.Prelude.{
  ℕ, ◌≡◌, ◌≢◌, ◌∙◌, ap, refl, false, Bool-cases, inl, inr, Option, none, some, some_injective, sym,
  arith, update-cases,
}
use contention_queue.Interface.{Client}
use contention_queue.World.{World, exclusive, set_mutex, Pc}
use contention_queue.Poisoning.{ignore_poison, lock, drop_guard, unwind_guard}
use contention_queue.Process.{start_waiting, unwind}
use contention_queue.Process.Paths.{process-paths, resume-paths}
use contention_queue.Process.Branches.{lock_and_process-cases}
use contention_queue.Process.Flags.{is_queue_poisoned-Visited, clear_queue_poison-Visited}
use contention_queue.System.{
  writes_unlocked, Move, client_lock, client_write, locks, enters, waits_again, resumes, runs,
  re_locks, settles, fails, asks, clears, asks_unlocked, clears_unlocked,
}
use contention_queue.TaskState.{TaskState, notify_one}
use contention_queue.System.{System, Reach, wakes_spuriously}
use contention_queue.Invariant.{holds_lock, has_front}
use contention_queue.Invariant.Moves.{Reach-Inv, Move-Effect}
use contention_queue.Safety.Hang.{holder-stays}

-- `*self.state.get_mut()` in `wait_until_at_front`, where the `TaskState` is live.
abbrev pub read_state : Option TaskState → Option ℕ
read_state none = none
read_state (some s) = some s.state

-- While the lock is held, a thread without a guard changes nothing of the queue's state behind the
-- mutex, nor of the value in the mutex, nor of a state byte.
locked_out :
    {c : Client} {addr i : ℕ} {w w' : World c} {p p' : Pc c}
    → Move addr i w p w' p'
    → holds_lock p ≡ false
    → w.mutex.holder ≢ none
    → (exclusive w' ≡ exclusive w)
      × (w'.mutex.inner ≡ w.mutex.inner)
      × ((k : ℕ) → read_state (w'.frames k) ≡ read_state (w.frames k))
unfolding drop_guard unwind_guard notify_one
locked_out (client_lock free) out busy = absurd (busy free)
locked_out (locks free) out busy = absurd (busy free)
locked_out (waits_again free live awake n) out busy = absurd (busy free)
locked_out (resumes free live awake turn e) out busy = absurd (busy free)
locked_out (re_locks output free) out busy = absurd (busy free)
locked_out (fails free e) out busy = absurd (busy free)
locked_out (asks free e) out busy = absurd (busy free)
locked_out (asks_unlocked free e) out busy = absurd (busy free)
locked_out (clears free e) out busy = absurd (busy free)
locked_out (clears_unlocked free e) out busy = absurd (busy free)
locked_out enters out busy = absurd (ground arith)
locked_out runs out busy = absurd (ground arith)
locked_out (settles e) out busy = absurd (ground arith)
locked_out (client_write m) out busy = absurd (ground arith)
locked_out {i = i} {w} (wakes_spuriously {s = s} live) out busy = (
  refl,
  refl,
  update-cases w.frames i (λ k o. read_state o ≡ read_state (w.frames k)) (some (notify_one s))
      (ap read_state (sym live)) (λ k ne. refl),
)
locked_out _ out busy = (refl, refl, λ k. refl)

-- In every reachable state, while a thread `j` holds a guard, or has leaked one to a panic, a move of
-- any other thread changes nothing that the lock protects: neither the state behind the mutex, nor the
-- value in the mutex, nor the state byte of any `TaskState`, and none of these comes or goes.
pub lock_protects :
    {c : Client} {addr : ℕ} {s : System c} (i j : ℕ) {w : World c} {p : Pc c}
    → Reach addr s
    → s.world.mutex.holder ≡ some j
    → i ≢ j
    → Move addr i s.world (s.pc i) w p
    → (exclusive w ≡ exclusive s.world)
      × (w.mutex.inner ≡ s.world.mutex.inner)
      × (w.mutex.holder ≡ some j)
      × ((k : ℕ) → read_state (w.frames k) ≡ read_state (s.world.frames k))
lock_protects {s = s} i j r held ne m =
    let lock = (Reach-Inv r).lock in
    let out : holds_lock (s.pc i) ≡ false = elim (Bool-cases (holds_lock (s.pc i))) [
      | inr e ↦ e
      | inl e ↦ absurd (ne (some_injective i j (sym (lock.locked i e) ∙ held)))
    ] in
    let (queue, inner, bytes) = locked_out m out (λ free. ground (arith, held)) in
    (
      queue,
      inner,
      holder-stays j i lock (Move-Effect (Reach-Inv r).front refl m).lock refl
          (λ same. ne (sym same)) held,
      bytes,
    )

-- The front state is the same after as before.
abbrev Untouched : {c : Client} → World c → World c × Pc c → Type 0
Untouched w r = r.0.cq.front_exclusive ≡ w.cq.front_exclusive

-- A thread without the front permission does not change the front state.
pub front_untouched :
    {c : Client} {addr i : ℕ} {w w' : World c} {p p' : Pc c}
    → Move addr i w p w' p'
    → has_front p ≡ false
    → w'.cq.front_exclusive ≡ w.cq.front_exclusive
unfolding start_waiting unwind
front_untouched {c} {i = i} {w} (locks {v} {task} free) out =
    lock_and_process-cases (Untouched w) i w v task refl refl
front_untouched {addr = addr} {i} {w} (enters {v} {task}) out =
    process-paths (Untouched w) i w v task addr (λ _. refl) (λ a e l. refl) (λ a e l. refl)
      (λ a e l. refl)
front_untouched {i = i} {w} (resumes {task} {b = b} free live awake turn e) out =
    let w₁ = set_mutex (ignore_poison (lock i w.mutex)) w in
    resume-paths (Untouched w) i w₁ task b e (λ t rest q. refl) (λ t rest q v has. refl)
      (λ t rest q result. refl)
front_untouched {addr = addr} {i} {w} (asks {r} free e) out =
    (is_queue_poisoned-Visited addr i w r e).1.front_state
front_untouched {addr = addr} {i} {w} (asks_unlocked {r} free e) out =
    (is_queue_poisoned-Visited addr i w r e).1.front_state
front_untouched {addr = addr} {i} {w} {w'} (clears free e) out =
    (clear_queue_poison-Visited addr i w w' e).front_state
front_untouched {addr = addr} {i} {w} {w'} (clears_unlocked free e) out =
    (clear_queue_poison-Visited addr i w w' e).front_state
front_untouched runs out = absurd (ground arith)
front_untouched (writes_unlocked f) out = absurd (ground arith)
front_untouched (re_locks output free) out = absurd (ground arith)
front_untouched (settles e) out = absurd (ground arith)
front_untouched (fails free e) out = absurd (ground arith)
front_untouched _ out = refl
