-- ===== src/Invariant/Front/Transfer.antt =====
-- The permission where a thread enters the queue, is woken up, or hands over to the next.
use contention_queue.Prelude.{
  ℕ, zero, suc, ◌≡◌, ◌≢◌, refl, sym, subst, ap, ◌∙◌, true, false, Option, none, some, List, [], ◌∷◌,
  ◌++◌, tail, update, update_self, update_ne,
}
use contention_queue.Interface.{Client}
use contention_queue.TaskState.{TaskState, wait_until_at_front}
use contention_queue.Task.{ErasedTask}
use contention_queue.QueueState.{MutexExclusive}
use contention_queue.Shape.{
  owners, owns, Distinct, Asleep, Awake, AllAsleep, HasValue, NoValue, Popped,
}
use contention_queue.Shape.Owners.{AllAsleep-update, AllAsleep-owns}
use contention_queue.Shape.Values.{Popped-append}
use contention_queue.World.{Pc}
use contention_queue.Invariant.{
  has_front, is_waiting, Cursor, Permission, released, held, granted, FrontInv,
}
use contention_queue.TaskState.Bits.{wait_until_at_front-asleep}
use contention_queue.Invariant.Front.Moved.{
  eq-false_of_ne, true-ne-false, nobody_still, nobody_now, only_still, only_mover, front_self,
  front_ne, Cursor-self, Cursor-ne, AllAsleep-cong,
}
use contention_queue.Invariant.Front.Waiters.{
  owns-cons_false, AllAsleep-push, waiter-Asleep, waiter-queue_ne, not_holder,
}
use contention_queue.Invariant.Front.{IsOutside}

Popped-rest :
    {c : Client} (p' : Pc c) (t : ErasedTask c.Value) (rest : List (ErasedTask c.Value))
    → (HasValue t.value → Cursor p' 0)
    → ((k : ℕ) → NoValue t.value → Cursor p' k)
    → (k : ℕ) → Popped k (t ∷ rest)
    → (k' : ℕ) × Cursor p' k' × Popped k' rest
Popped-rest p' t rest cu0 cu1 zero po = (0, cu0 po.0, po.1)
Popped-rest p' t rest cu0 cu1 (suc k) po = (k, cu1 k po.0, po.1)

module _ {c : Client} (i : ℕ) {q q' : MutexExclusive c.Value} {f f' : ℕ → Option TaskState}
    (p' : Pc c) {pc : ℕ → Pc c} (inv : FrontInv q f pc) where
  pub pushes-Permission :
      Permission q f pc
      → (t : ErasedTask c.Value) (s : TaskState) → q.front_locked ≡ true
      → q'.front_locked ≡ true
      → q'.queue ≡ q.queue ++ t ∷ []
      → t.state ≡ i
      → HasValue t.value
      → f' ≡ update f i (some s)
      → s.state ≡ 0
      → IsOutside (pc i)
      → has_front p' ≡ false
      → Permission q' f' (update pc i p')
  pushes-Permission (released l e n) t s l0 l1 eq ow v ef st out hf = absurd (true-ne-false l0 l)
  pushes-Permission (held h k l hh un cu po asl) t s l0 l1 eq ow v ef st out hf =
      let ne = not_holder inv i hh out.0 in
      held h k l1 (front_ne pc i p' h ne hh) (only_still pc i p' h un hf)
        (Cursor-ne pc i p' h k ne cu) (subst (Popped k) (sym eq) (Popped-append k q.queue t v po))
        (AllAsleep-cong ef (ap owners eq)
          (AllAsleep-push f i s q.queue t (inv.queued i ∙ out.1) asl ow st))
  pushes-Permission (granted k t' r l e n po aw asl) t s l0 l1 eq ow v ef st out hf =
      let apart =
        owns-cons_false i t'.state (owners r)
          (ap (λ xs. owns i (owners xs)) (sym e) ∙ inv.queued i ∙ out.1) in
      granted k t' (r ++ t ∷ []) l1 (eq ∙ ap (λ xs. xs ++ t ∷ []) e) (nobody_still pc i p' n hf)
        (Popped-append k (t' ∷ r) t v po)
        (subst Awake
          (sym (ap (λ g. g t'.state) ef ∙ update_ne f i t'.state (some s) (λ x. apart.0 (sym x))))
          aw)
        (AllAsleep-cong ef refl (AllAsleep-push f i s r t apart.1 asl ow st))

  pub resumes-Permission :
      Permission q f pc
      → (s : TaskState) (t : ErasedTask c.Value) (rest : List (ErasedTask c.Value)) → f i ≡ some s
      → wait_until_at_front s ≢ none
      → q'.front_locked ≡ q.front_locked
      → q.queue ≡ t ∷ rest
      → q'.queue ≡ rest
      → f' ≡ update f i none
      → is_waiting (pc i) ≡ true
      → has_front p' ≡ true
      → (HasValue t.value → Cursor p' 0)
      → ((k : ℕ) → NoValue t.value → Cursor p' k)
      → Permission q' f' (update pc i p')
  resumes-Permission (released l e n) s t rest fi w l0 eq eq' ef wp hf cu0 cu1 =
      absurd (waiter-queue_ne inv i e wp)
  resumes-Permission (held h k l hh un cu po asl) s t rest fi w l0 eq eq' ef wp hf cu0 cu1 =
      absurd (w (wait_until_at_front-asleep s (subst Asleep fi (waiter-Asleep inv i asl wp))))
  resumes-Permission (granted k t' r l e n po aw asl) s t rest fi w l0 eq eq' ef wp hf cu0 cu1 =
      let same = sym e ∙ eq in
      let left = Popped-rest p' t rest cu0 cu1 k (subst (Popped k) same po) in
      held i left.0 (l0 ∙ l) (front_self pc i p' hf)
        (only_mover pc i p' (λ j x. absurd (true-ne-false x (n j))))
        (Cursor-self pc i p' left.0 left.1) (subst (Popped left.0) (sym eq') left.2)
        (AllAsleep-cong ef (ap owners (eq' ∙ sym (ap tail same))) (
          AllAsleep-update f i none (owners r)
            (eq-false_of_ne (λ x. w (
              wait_until_at_front-asleep s
                (subst Asleep fi (AllAsleep-owns f i (owners r) asl x)))))
            asl))

  pub grants-Permission :
      Permission q f pc
      → (s s' : TaskState) (t : ErasedTask c.Value) (rest : List (ErasedTask c.Value))
      → q.queue ≡ t ∷ rest
      → q'.queue ≡ q.queue
      → q'.front_locked ≡ q.front_locked
      → f t.state ≡ some s
      → f' ≡ update f t.state (some s')
      → (Asleep (some s) → Awake (some s'))
      → has_front (pc i) ≡ true
      → has_front p' ≡ false
      → Permission q' f' (update pc i p')
  grants-Permission (released l e n) s s' t rest eq eq' l0 fi ef aw hf out =
      absurd (true-ne-false hf (n i))
  grants-Permission (held h k l hh un cu po asl) s s' t rest eq eq' l0 fi ef aw hf out =
      let asl' = subst (λ xs. AllAsleep f (owners xs)) eq asl in
      granted k t rest (l0 ∙ l) (eq' ∙ eq) (nobody_now pc i p' (λ j x. un j x ∙ sym (un i hf)) out)
        (subst (Popped k) eq po)
        (subst Awake (sym (ap (λ g. g t.state) ef ∙ update_self f t.state (some s')))
          (aw (subst Asleep fi asl'.0)))
        (AllAsleep-cong ef refl (
          AllAsleep-update f t.state (some s') (owners rest)
            (subst (λ xs. Distinct (owners xs)) eq inv.distinct).0 asl'.1))
  grants-Permission (granted k t' r l e n po awk asl) s s' t rest eq eq' l0 fi ef aw hf out =
      absurd (true-ne-false hf (n i))
