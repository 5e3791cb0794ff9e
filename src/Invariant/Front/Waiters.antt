-- ===== src/Invariant/Front/Waiters.antt =====
-- The threads in the queue and the thread with the permission, under `FrontInv`.
use contention_queue.Prelude.{
  ℕ, ◌≡◌, ◌≢◌, sym, subst, ap, ◌∙◌, true, false, Option, some, List, [], ◌∷◌, ◌++◌, update, arith,
}
use contention_queue.Interface.{Client}
use contention_queue.TaskState.{TaskState}
use contention_queue.Task.{ErasedTask}
use contention_queue.QueueState.{MutexExclusive}
use contention_queue.Shape.{owners, owns, Asleep, AllAsleep}
use contention_queue.Shape.Owners.{
  owners-append, AllAsleep-update, AllAsleep-append, AllAsleep-owns,
}
use contention_queue.World.{Pc}
use contention_queue.Invariant.{has_front, is_waiting, Cursor, FrontInv}
use contention_queue.Invariant.Front.Moved.{true-ne-false}

pub waiting-no_front : {c : Client} (p : Pc c) → is_waiting p ≡ true → has_front p ≡ false
waiting-no_front p w = ground arith

pub owns-cons_false :
    (i x : ℕ) (xs : List ℕ) → owns i (x ∷ xs) ≡ false → (x ≢ i) × (owns i xs ≡ false)
owns-cons_false i x xs h = ground arith

pub AllAsleep-push {ℓ} :
    {V : Type ℓ} (f : ℕ → Option TaskState) (i : ℕ) (s : TaskState) (q : List (ErasedTask V))
    (t : ErasedTask V)
    → owns i (owners q) ≡ false
    → AllAsleep f (owners q)
    → t.state ≡ i
    → s.state ≡ 0
    → AllAsleep (update f i (some s)) (owners (q ++ t ∷ []))
AllAsleep-push f i s q t n asl ow st = rw (owners-append q (t ∷ [])) (
    AllAsleep-append (update f i (some s)) (owners q) t.state
      (AllAsleep-update f i (some s) (owners q) n asl) (ground arith))

module _ {c : Client} {q : MutexExclusive c.Value} {f : ℕ → Option TaskState} {pc : ℕ → Pc c}
    (inv : FrontInv q f pc) (i : ℕ) where
  -- A thread that waits has its task in the queue, so its frame sleeps if all in the queue do.
  pub waiter-Asleep : AllAsleep f (owners q.queue) → is_waiting (pc i) ≡ true → Asleep (f i)
  waiter-Asleep asl w = AllAsleep-owns f i (owners q.queue) asl (inv.queued i ∙ w)

  pub waiter-queue_ne : q.queue ≡ [] → is_waiting (pc i) ≢ true
  waiter-queue_ne e w = true-ne-false (inv.queued i ∙ w) (ap (λ xs. owns i (owners xs)) e)

  -- A thread without the permission is not the one that has it.
  pub not_holder : {h : ℕ} → has_front (pc h) ≡ true → has_front (pc i) ≡ false → i ≢ h
  not_holder t n e = true-ne-false t (ap (λ j. has_front (pc j)) (sym e) ∙ n)

pub Cursor-at : {c : Client} (pc : ℕ → Pc c) (h i k : ℕ) → h ≡ i → Cursor (pc h) k → Cursor (pc i) k
Cursor-at pc h i k e = subst (λ (j : ℕ). Cursor (pc j) k) e
