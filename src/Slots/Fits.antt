-- ===== src/Slots/Fits.antt =====
-- The slots that belong to each place of a thread, through a move of the thread.
use contention_queue.Prelude.{
  ℕ, ◌≡◌, ◌⊎◌, refl, sym, subst, ap, ◌∙◌, inl, inr, Option, none, some, true,
}
use contention_queue.Interface.{Client, Callback, ProcessTask}
use contention_queue.Poisoning.{Outcome, value, panics, ignore_poison, lock}
use contention_queue.Handle
use contention_queue.Handle.{QueueHandle}
use contention_queue.World.{World, Pc, exclusive, set_exclusive, set_mutex, running, failing}
use contention_queue.Process.{process, start_waiting, unwind}
use contention_queue.Process.Paths.{process-paths, resume-paths}
use contention_queue.Process.Branches.{lock_and_process-cases}
use contention_queue.Process.HandOver.{settle-some, fail-some}
use contention_queue.Run.{run_callback, answer, unlock, re_lock}
use contention_queue.System.{Move, locks, enters, resumes, runs, re_locks, settles, fails}
use contention_queue.Invariant.{holds_lock}
use contention_queue.Slots.{
  Slots, vacant, new_slots, assume_init, re_lock_new, mutex_state, mutex_state_mut, re_lock_drop,
  leaves, slot_callback, enters_callback, slots_of, slot_move,
}

module _ {c : Client} (i : ℕ) where
  -- While the callback runs, both slots are filled; in the closure of `unlocked` both are empty, and
  -- a panic may leave a guard behind.
  abbrev pub Fits : Option ℕ → Pc c → Slots → Type 0
  Fits holder (running h k) s = s ≡ new_slots i
  Fits holder failing s =
      (s ≡ vacant)
      ⊎ ((s ≡ record { guard = some i; mutex_exclusive_guard = none }) × (holder ≡ some i))
  Fits holder _ s = s ≡ vacant

  -- A thread that is not in a callback.
  abbrev pub FitsMove : Slots → World c × Pc c → Type 0
  FitsMove s r = Fits r.0.mutex.holder r.1 (enters_callback i r.1 s)

  process-Fits :
      (addr : ℕ) (w : World c) (v : c.Value) (task : ProcessTask c)
      → FitsMove vacant (process addr i w v task)
  unfolding start_waiting unwind
  process-Fits addr w v task =
      process-paths (FitsMove vacant) i w v task addr (λ _. refl) (λ a e l. refl)
        (λ a e l. inl refl) (λ a e l. refl)

  -- What a use of the handle gives, and the slots after it.
  abbrev pub Used : World c × Pc c → Option (Slots × (World c × Pc c)) → Type 0
  Used r o = (x : Slots) × (o ≡ some (x, r)) × Fits r.0.mutex.holder r.1 x

  answer-Used :
      (w : World c) (h : QueueHandle) (k : Option c.Value → Callback c)
      (o : Outcome (Option c.Value))
      → w.mutex.holder ≡ some i
      → Used (answer w h k o) (some (leaves (new_slots i) (answer w h k o)))
  answer-Used w h k (value o) own = (new_slots i, refl, refl)
  answer-Used w h k panics own =
      (record { guard = some i; mutex_exclusive_guard = none }, refl, inr (refl, own))

  -- With filled slots, each use of the handle is defined, and does what `run_callback` says.
  pub callback-Used :
      (w : World c) (h : QueueHandle) (k : Callback c)
      → w.mutex.holder ≡ some i
      → Used (run_callback w h k) (slot_callback w h (new_slots i) k)
  unfolding run_callback slot_callback assume_init re_lock_new mutex_state mutex_state_mut unlock
  callback-Used w h (Callback.return r) own = (vacant, refl, refl)
  callback-Used w h Callback.panic own =
      (record { guard = some i; mutex_exclusive_guard = none }, refl, inr (refl, own))
  callback-Used w h (Callback.peek k) own = answer-Used w h k (Handle.peek h (exclusive w)) own
  callback-Used w h (Callback.pop k) own =
      answer-Used (set_exclusive (Handle.pop h (exclusive w)).2 w) (Handle.pop h (exclusive w)).1 k
        (Handle.pop h (exclusive w)).0 own
  callback-Used w h (Callback.unlocked k) own = (vacant, refl, refl)
  callback-Used w h _ own = (new_slots i, refl, refl)

-- The slots after a move that is not stuck.
abbrev pub Defined : {c : Client} → ℕ → World c → Pc c → Option Slots → Type 0
Defined i w p o = (x : Slots) × (o ≡ some x) × Fits i w.mutex.holder p x

module _ {c : Client} (i : ℕ) (w : World c) where
  run-Defined :
      (h : QueueHandle) (k : Callback c) (s : Slots)
      → s ≡ new_slots i
      → w.mutex.holder ≡ some i
      → Defined i (run_callback w h k).0 (run_callback w h k).1 (slots_of (slot_callback w h s k))
  run-Defined h k s full own =
      let (x, e, fits) = callback-Used i w h k own in
      (x, ap (λ y. slots_of (slot_callback w h y k)) full ∙ ap slots_of e, fits)

  pub Move-Defined :
      {addr : ℕ} {w' : World c} {p p' : Pc c} (m : Move addr i w p w' p') (s : Slots)
      → Fits i w.mutex.holder p s
      → (holds_lock p ≡ true → w.mutex.holder ≡ some i)
      → Defined i w' p' (slot_move m s)
  unfolding re_lock re_lock_drop unwind
  Move-Defined (locks {v} {task} free) s fits own =
      (s, refl, lock_and_process-cases (λ r. Fits i r.0.mutex.holder r.1 s) i w v task fits fits)
  Move-Defined {addr} (enters {v} {task}) s fits own = (
    _,
    refl,
    subst (λ y. FitsMove i y (process addr i w v task)) (sym fits) (process-Fits i addr w v task),
  )
  Move-Defined (resumes {task} {s = ts} {b} {r} free live awake turn e) s fits own =
      let w₁ : World c = set_mutex (ignore_poison (lock i w.mutex)) w in
      let after : FitsMove i vacant r =
        resume-paths (FitsMove i vacant) i w₁ task b e (λ t rest q. inl refl)
          (λ t rest q v has. refl) (λ t rest q result. refl) in
      (_, refl, subst (λ y. FitsMove i y r) (sym fits) after)
  Move-Defined (runs {h} {k}) s fits own = run-Defined h k s fits (own refl)
  Move-Defined (re_locks output free) s fits own = (new_slots i, refl, refl)
  Move-Defined (settles {result} {r} e) s fits own =
      let (w₁, over, eq) = settle-some w result e in
      (s, refl, subst (λ x. Fits i x.0.mutex.holder x.1 s) (sym eq) fits)
  Move-Defined (fails {r} free e) s fits own =
      let (w₁, over, eq) = fail-some i w e in
      (vacant, refl, subst (λ x. Fits i x.0.mutex.holder x.1 vacant) (sym eq) refl)
  Move-Defined _ s fits own = (s, refl, fits)
