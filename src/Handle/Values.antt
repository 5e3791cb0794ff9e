-- ===== src/Handle/Values.antt =====
-- The handle of src/queue_handle.rs on a queue whose first `next_idx` tasks have lost their values.
use contention_queue.Prelude.{
  suc, ◌≡◌, refl, inl, inr, Option, none, some, get_elem?, set, arith, Option-cases,
}
use contention_queue.Poisoning.{value}
use contention_queue.Task.{take, inner}
use contention_queue.QueueState.{MutexExclusive}
use contention_queue.Shape.{owners, HasValue, Popped}
use contention_queue.Shape.Values.{Popped-get, Popped-set, owners-set}
use contention_queue.Handle.{QueueHandle, peek, pop, expect}

-- A task that has a value has some value.
pub HasValue-some {ℓ} : {V : Type ℓ} (o : Option V) → HasValue o → (v : V) × (o ≡ some v)
HasValue-some (some v) h = (v, refl)
HasValue-some none h = absurd h

module _ {ℓ} {V : Type ℓ} (h : QueueHandle) (q : MutexExclusive V) where
  -- Neither `expect` of the handle fails.
  pub peek_returns : Popped h.next_idx q.queue → (o : Option V) × (peek h q ≡ value o)
  unfolding peek expect inner
  peek_returns p = elim (Option-cases (get_elem? q.queue h.next_idx)) [
    | inl e ↦ (none, ground arith)
    | inr (t, e) ↦
        let found = HasValue-some t.value (Popped-get h.next_idx q.queue t p e) in
        (some found.0, ground arith)
  ]

  -- A pop keeps the shape of the queue and the threads in it.
  pub pop-keeps :
      Popped h.next_idx q.queue
      → (o : Option V) × (h' : QueueHandle) × (q' : MutexExclusive V) × (pop h q
          ≡ (value o, h', q'))
        × Popped h'.next_idx q'.queue
        × (owners q'.queue ≡ owners q.queue)
        × (q'.front_locked ≡ q.front_locked)
        × (q'.queue_poisoned ≡ q.queue_poisoned)
  unfolding pop expect take
  pop-keeps p = elim (Option-cases (get_elem? q.queue h.next_idx)) [
    | inl e ↦ (none, h, q, ground arith, p, refl, refl, refl)
    | inr (t, e) ↦
        let found = HasValue-some t.value (Popped-get h.next_idx q.queue t p e) in
        let emptied = (take t).1 in
        (
          some found.0,
          record { next_idx = suc h.next_idx },
          record q { queue = set q.queue h.next_idx emptied },
          ground arith,
          Popped-set h.next_idx q.queue t emptied p e tt,
          owners-set h.next_idx q.queue t emptied e refl,
          refl,
          refl,
        )
  ]

  -- A pop leaves the poison flag alone.
  pub pop-poisoned : (pop h q).2.queue_poisoned ≡ q.queue_poisoned
  unfolding pop
  pop-poisoned = ground arith
