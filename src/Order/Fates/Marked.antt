-- ===== src/Order/Fates/Marked.antt =====
-- The fates of the queued values, when the queue changes.
use contention_queue.Prelude.{
  ℕ, zero, suc, ◌≡◌, ◌≢◌, sym, subst, false, some, List, [], ◌∷◌, ◌++◌, get_elem?, set, arith,
  update, update_self, update_ne, inl, inr, Option-cases,
}
use contention_queue.Task.{ErasedTask, take}
use contention_queue.QueueState.{MutexExclusive}
use contention_queue.Handle
use contention_queue.Handle.{QueueHandle}
use contention_queue.Shape.{owners, owns, Distinct}
use contention_queue.Order.Own.{get-owner}
use contention_queue.Order.Fates.{Fate, Mark, Marks, pops_task}

module _ {V : Type 0} (fates : ℕ → Fate) where
  pub Marks-append :
      (q : List (ErasedTask V)) (t : ErasedTask V)
      → Mark t.state (fates t.state) t.value
      → Marks fates q
      → Marks fates (q ++ t ∷ [])
  Marks-append [] t m marks = (m, tt)
  Marks-append (x ∷ q) t m marks = (marks.0, Marks-append q t m marks.1)

  pub Marks-update :
      (i : ℕ) (fate : Fate) (q : List (ErasedTask V))
      → owns i (owners q) ≡ false
      → Marks fates q
      → Marks (update fates i fate) q
  Marks-update i fate [] out marks = tt
  Marks-update i fate (x ∷ q) out marks =
      let other : i ≢ x.state = λ e. ground arith in
      let rest : owns i (owners q) ≡ false = ground arith in
      (
        subst (λ y. Mark x.state y x.value) (sym (update_ne fates i x.state fate other)) marks.0,
        Marks-update i fate q rest marks.1,
      )

  -- A value that thread `j` pops is marked as its.
  pub Marks-set :
      (j k : ℕ) (q : List (ErasedTask V)) (t : ErasedTask V)
      → get_elem? q k ≡ some t
      → Distinct (owners q)
      → j ≢ t.state
      → Marks fates q
      → Marks (update fates t.state (Fate.popped_by j)) (set q k (take t).1)
  unfolding take
  Marks-set j k [] t e apart ne marks = absurd (ground arith)
  Marks-set j zero (x ∷ q) t e apart ne marks =
      let same : x.state ≡ t.state = ground arith in
      (
        (j, update_self fates t.state (Fate.popped_by j), ne),
        Marks-update t.state (Fate.popped_by j) q
            (subst (λ y. owns y (owners q) ≡ false) same apart.0) marks.1,
      )
  Marks-set j (suc k) (x ∷ q) t e apart ne marks =
      let other : t.state ≢ x.state = λ same.
        let here = get-owner k q t e in
        let gone = subst (λ y. owns y (owners q) ≡ false) (sym same) apart.0 in ground arith in
      (
        subst (λ y. Mark x.state y x.value)
            (sym (update_ne fates t.state x.state (Fate.popped_by j) other)) marks.0,
        Marks-set j k q t e apart.1 ne marks.1,
      )

  -- A pop of thread `i`, which has no task in the queue itself.
  pub pop-Marks :
      (i : ℕ) (h : QueueHandle) (q : MutexExclusive V)
      → Distinct (owners q.queue)
      → owns i (owners q.queue) ≡ false
      → Marks fates q.queue
      → Marks (pops_task i (get_elem? q.queue h.next_idx) fates) (Handle.pop h q).2.queue
  unfolding Handle.pop
  pop-Marks i h q apart out marks = elim (Option-cases (get_elem? q.queue h.next_idx)) [
    | inl e ↦
        let left_ : (Handle.pop h q).2.queue ≡ q.queue = ground arith in
        subst (Marks (pops_task i (get_elem? q.queue h.next_idx) fates)) (sym left_)
          (subst (λ o. Marks (pops_task i o fates) q.queue) (sym e) marks)
    | inr (t, e) ↦
        let left_ : (Handle.pop h q).2.queue ≡ set q.queue h.next_idx (take t).1 = ground arith in
        let other : i ≢ t.state = λ x.
          let here = get-owner h.next_idx q.queue t e in
          let gone = subst (λ y. owns y (owners q.queue) ≡ false) x out in ground arith in
        subst (Marks (pops_task i (get_elem? q.queue h.next_idx) fates)) (sym left_) (
          subst (λ o. Marks (pops_task i o fates) (set q.queue h.next_idx (take t).1)) (sym e)
            (Marks-set i h.next_idx q.queue t e apart other marks))
  ]
