-- ===== src/Order/Drain.antt =====
-- A callback that pops in a loop: what the handle of src/queue_handle.rs gives it.
use contention_queue.Prelude.{
  ℕ, zero, suc, ◌≡◌, ◌≤◌, refl, sym, ap, ◌∙◌, inl, inr, none, some, List, [], ◌∷◌, ◌++◌, get_elem?,
  set, length, arith, Option-cases,
}
use contention_queue.Interface.{Client, Callback}
use contention_queue.Task.{ErasedTask, take}
use contention_queue.QueueState.{MutexExclusive}
use contention_queue.Shape.{Popped}
use contention_queue.Shape.Values.{Popped-get, Popped-set}
use contention_queue.Handle
use contention_queue.Handle.{QueueHandle, expect}
use contention_queue.Handle.Values.{HasValue-some}
use contention_queue.World.{exclusive, running}
use contention_queue.System.{System, Reach}
use contention_queue.Invariant.Moves.{Reach-Inv, handle-Popped}
use contention_queue.Order.{values, answered}
use contention_queue.Order.Flow.{values-set}

no_length {ℓ} : {A : Type ℓ} (xs : List A) → length xs ≤ 0 → [] ≡ xs
no_length [] le = refl
no_length (x ∷ xs) le = absurd (ground arith)

module _ {ℓ} {V : Type ℓ} where
  -- The values that `n` pops in a row give.
  unfoldable pub drain : ℕ → QueueHandle → MutexExclusive V → List V
  drain zero h q = []
  drain (suc n) h q =
      let (popped, h', q') = Handle.pop h q in let rest = drain n h' q' in answered popped ++ rest

  -- Behind the last task there are no values.
  end-empty : (k : ℕ) (q : List (ErasedTask V)) → Popped k q → get_elem? q k ≡ none → values q ≡ []
  end-empty k [] p e = refl
  end-empty zero (t ∷ q) p e = absurd (ground arith)
  end-empty (suc k) (t ∷ q) p e = ground (arith, end-empty k q p.1 e)

  past-end :
      (n : ℕ) (h : QueueHandle) (q : MutexExclusive V)
      → get_elem? q.queue h.next_idx ≡ none
      → drain n h q ≡ []
  unfolding drain Handle.pop
  past-end zero h q e = refl
  past-end (suc n) h q e = ground (arith, past-end n h q e)

  -- One pop that finds a task, and the pops after it.
  drain_next :
      (n : ℕ) (h : QueueHandle) (q : MutexExclusive V) (t : ErasedTask V) (v : V)
      → get_elem? q.queue h.next_idx ≡ some t
      → t.value ≡ some v
      → drain (suc n) h q
        ≡ v
          ∷ drain n
              (record { next_idx = suc h.next_idx })
              (record q { queue = set q.queue h.next_idx (take t).1 })
  unfolding drain Handle.pop expect take
  drain_next n h q t v e has = ground arith

  drain_all :
      (n : ℕ) (h : QueueHandle) (q : MutexExclusive V)
      → Popped h.next_idx q.queue
      → length (values q.queue) ≤ n
      → drain n h q ≡ values q.queue
  unfolding drain take
  drain_all zero h q p le = no_length (values q.queue) le
  drain_all (suc n) h q p le = elim (Option-cases (get_elem? q.queue h.next_idx)) [
    | inl e ↦ past-end (suc n) h q e ∙ sym (end-empty h.next_idx q.queue p e)
    | inr (t, e) ↦
        let (v, has) = HasValue-some t.value (Popped-get h.next_idx q.queue t p e) in
        let emptied = (take t).1 in
        let left = set q.queue h.next_idx emptied in
        let flow : v ∷ values left ≡ values q.queue =
          ground (arith, values-set h.next_idx q.queue t emptied p e tt) in
        let rest =
          drain_all n (record { next_idx = suc h.next_idx }) (record q { queue = left })
            (Popped-set h.next_idx q.queue t emptied p e tt) (ground (arith, ap length flow)) in
        drain_next n h q t v e has ∙ ap (◌∷◌ v) rest ∙ flow
  ]

-- In every reachable state, a running callback that pops at least as often as there are values
-- waiting gets all of them, in the order in which they were queued, and nothing else.
pub drain_takes_all :
    {c : Client} {addr : ℕ} {s : System c} (i n : ℕ) (h : QueueHandle) (k : Callback c)
    → Reach addr s
    → s.pc i ≡ running h k
    → length (values (exclusive s.world).queue) ≤ n
    → drain n h (exclusive s.world) ≡ values (exclusive s.world).queue
drain_takes_all {s = s} i n h k r at enough =
    drain_all n h (exclusive s.world) (handle-Popped s.world i (Reach-Inv r).front at) enough
