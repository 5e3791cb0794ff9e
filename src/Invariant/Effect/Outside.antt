-- ===== src/Invariant/Effect/Outside.antt =====
-- The effects of client code: the mutex, the flags of the queue, and the ends of a call.
use contention_queue.Prelude.{ℕ, ◌≡◌, refl, sym, subst, ap, ◌∙◌, inl, inr, false, none}
use contention_queue.Interface.{Client}
use contention_queue.Poisoning.{value}
use contention_queue.Queue.{assert_mutex_good}
use contention_queue.Queue.Address.{assert_mutex_good-value}
use contention_queue.QueueState.{MutexExclusive}
use contention_queue.Shape.{owners, Popped}
use contention_queue.World.{World, exclusive, Pc}
use contention_queue.Process.Flags.{Visited}
use contention_queue.Invariant.{holds_lock, Cursor}
use contention_queue.Invariant.Lock.{LockEffect, keeps, visits}
use contention_queue.Invariant.Front.{IsOutside, stays}
use contention_queue.Invariant.Effect.{Effect}

module _ {c : Client} (addr i : ℕ) (w w' : World c) where
  -- A visit to the flags by a thread that does not hold the lock.
  pub visit-Effect :
      (p : Pc c) (q : MutexExclusive c.Value)
      → w.mutex.holder ≡ none
      → holds_lock p ≡ false
      → q.front_locked ≡ (exclusive w).front_locked
      → q.queue ≡ (exclusive w).queue
      → Visited addr w w' q
      → Effect addr i w p w' p
  visit-Effect p q free hl l e v = record {
    lock = visits free v.holder hl;
    front =
        stays (ap (λ x. x.front_locked) v.contents ∙ l)
          (ap (λ x. owners x.queue) v.contents ∙ ap owners e) v.frames refl refl
          (λ _. ap (λ x. x.queue) v.contents ∙ e)
          (λ k cu po. (k, cu, subst (Popped k) (sym (ap (λ x. x.queue) v.contents ∙ e)) po));
    address = inr v.address;
  }

  -- A move of client code that leaves the queue and the frames alone.
  pub client-Effect :
      (p p' : Pc c)
      → LockEffect i w.mutex.holder p w'.mutex.holder p'
      → w'.cq ≡ w.cq
      → w'.frames ≡ w.frames
      → IsOutside p
      → IsOutside p'
      → ((k : ℕ) → Cursor p' k)
      → Effect addr i w p w' p'
  client-Effect p p' lock cq frames out out' cu = record {
    lock = lock;
    front =
        stays (ap (λ x. x.mutex_exclusive.front_locked) cq)
          (ap (λ x. owners x.mutex_exclusive.queue) cq) frames (out'.0 ∙ sym out.0)
          (out'.1 ∙ sym out.1) (λ _. ap (λ x. x.mutex_exclusive.queue) cq)
          (λ k _ po. (k, cu k, subst (Popped k) (sym (ap (λ x. x.mutex_exclusive.queue) cq)) po));
    address = inl (ap (λ x. x.mutex_address) cq);
  }

-- A call that stores the address of its mutex, before it locks that.
pub assert-Effect :
    {c : Client} (addr i : ℕ) (w : World c) (p : Pc c) (a : ℕ)
    → assert_mutex_good w.cq.mutex_address addr ≡ value a
    → Effect addr i w p (record w { cq = record (w.cq) { mutex_address = a } }) p
assert-Effect addr i w p a e = record {
  lock = keeps refl refl (λ f. f);
  front = stays refl refl refl refl refl (λ _. refl) (λ k cu po. (k, cu, po));
  address = inr (assert_mutex_good-value w.cq.mutex_address addr a e).0;
}
