-- ===== src/Invariant/Front/Owner.antt =====
-- The safety argument for `unwrap_unchecked` and `into_inner` in `try_wait_until_at_front`: the task
-- that a woken thread pops is its own.
use contention_queue.Prelude.{
  ℕ, ◌≡◌, ◌≢◌, sym, subst, ap, ◌∙◌, true, false, none, some, List, ◌∷◌, arith, Bool-cases, inl, inr,
  Option,
}
use contention_queue.Interface.{Client}
use contention_queue.TaskState.{TaskState, wait_until_at_front}
use contention_queue.TaskState.Bits.{wait_until_at_front-asleep}
use contention_queue.Task.{ErasedTask}
use contention_queue.QueueState.{MutexExclusive}
use contention_queue.Shape.{owners, owns, Asleep}
use contention_queue.Shape.Owners.{AllAsleep-owns}
use contention_queue.World.{Pc}
use contention_queue.Invariant.{is_waiting, Permission, released, held, granted, FrontInv}
use contention_queue.Invariant.Front.Waiters.{waiter-Asleep, waiter-queue_ne}

owns-cons_here : (i x : ℕ) (xs : List ℕ) → owns i (x ∷ xs) ≡ true → owns i xs ≡ false → x ≡ i
owns-cons_here i x xs h n = ground arith

module _ {c : Client} {q : MutexExclusive c.Value} {f : ℕ → Option TaskState} {pc : ℕ → Pc c}
    (inv : FrontInv q f pc) (i : ℕ) (s : TaskState) where
  pub front_task :
      f i ≡ some s
      → wait_until_at_front s ≢ none
      → is_waiting (pc i) ≡ true
      → (t : ErasedTask c.Value) × (rest : List (ErasedTask c.Value)) × (q.queue ≡ t ∷ rest)
        × (t.state ≡ i)
  front_task fi w wp = go inv.permission
    where
      awake : ¬ Asleep (f i)
      awake a = w (wait_until_at_front-asleep s (subst Asleep fi a))

      go :
          Permission q f pc
          → (t : ErasedTask c.Value) × (rest : List (ErasedTask c.Value)) × (q.queue ≡ t ∷ rest)
            × (t.state ≡ i)
      go (released l e n) = absurd (waiter-queue_ne inv i e wp)
      go (held h k l hh un cu po asl) = absurd (awake (waiter-Asleep inv i asl wp))
      go (granted k t r l e n po aw asl) = elim (Bool-cases (owns i (owners r))) [
        | inl h ↦ absurd (awake (AllAsleep-owns f i (owners r) asl h))
        | inr h ↦ (
          t,
          r,
          e,
          owns-cons_here i t.state (owners r)
              (ap (λ xs. owns i (owners xs)) (sym e) ∙ inv.queued i ∙ wp) h,
        )
      ]

  pub front_task-state :
      (t : ErasedTask c.Value) (rest : List (ErasedTask c.Value))
      → f i ≡ some s
      → wait_until_at_front s ≢ none
      → is_waiting (pc i) ≡ true
      → q.queue ≡ t ∷ rest
      → t.state ≡ i
  front_task-state t rest fi w wp e =
      let own = front_task fi w wp in state-head t rest own.0 own.1 (sym e ∙ own.2) ∙ own.3
    where
      state-head :
          (t : ErasedTask c.Value) (r : List (ErasedTask c.Value)) (u : ErasedTask c.Value)
          (v : List (ErasedTask c.Value))
          → ◌≡◌ {A = List (ErasedTask c.Value)} (t ∷ r) (u ∷ v)
          → t.state ≡ u.state
      state-head t r u v e = ground arith
