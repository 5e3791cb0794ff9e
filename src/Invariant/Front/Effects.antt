-- ===== src/Invariant/Front/Effects.antt =====
-- Every effect on the front permission keeps `FrontInv`.
use contention_queue.Prelude.{
  ℕ, ◌≡◌, sym, subst, ap, ◌∙◌, true, Option, [], ◌∷◌, ◌++◌, update, arith,
}
use contention_queue.Interface.{Client}
use contention_queue.TaskState.{TaskState}
use contention_queue.QueueState.{MutexExclusive}
use contention_queue.Shape.{owners, owns, Distinct, is_live, Popped}
use contention_queue.Shape.Owners.{owners-append, owns-append, Distinct-append}
use contention_queue.World.{Pc}
use contention_queue.Invariant.{
  has_front, is_waiting, Permission, released, held, granted, FrontInv,
}
use contention_queue.Invariant.Front.Moved.{
  true-ne-false, nobody_now, only_mover, front_self, Cursor-self, AllAsleep-cong,
}
use contention_queue.Invariant.Front.Waiters.{waiting-no_front}
use contention_queue.Invariant.Front.Owner.{front_task-state}
use contention_queue.Invariant.Front.Keeps.{stays-Permission, stirs-Permission}
use contention_queue.Invariant.Front.Transfer.{
  pushes-Permission, resumes-Permission, grants-Permission,
}
use contention_queue.Invariant.Front.{
  FrontEffect, stays, stirs, acquires, pushes, resumes, releases, grants,
}

module _ {c : Client} (i : ℕ) {q q' : MutexExclusive c.Value} {f f' : ℕ → Option TaskState}
    (p' : Pc c) {pc : ℕ → Pc c} (inv : FrontInv q f pc) where
  FrontEffect-Permission : FrontEffect i q f (pc i) q' f' p' → Permission q' f' (update pc i p')
  FrontEffect-Permission (stays l o e hf hw keep cur) =
      stays-Permission i p' inv inv.permission l o e hf keep cur
  FrontEffect-Permission (stirs s s' eq fi e st aw w ep) =
      stirs-Permission i p' inv inv.permission s s' eq fi e st aw w ep
  FrontEffect-Permission (acquires l l' eq e out hf hw cu) = acquires_new inv.permission
    where
      acquires_new : Permission q f pc → Permission q' f' (update pc i p')
      acquires_new (released l0 e0 n) =
          held i 0 l' (front_self pc i p' hf)
            (only_mover pc i p' (λ j x. absurd (true-ne-false x (n j)))) (Cursor-self pc i p' 0 cu)
            (subst (Popped 0) (sym (eq ∙ e0)) tt) (AllAsleep-cong e (ap owners (eq ∙ e0)) tt)
      acquires_new (held h k l0 hh un cu0 po asl) = absurd (true-ne-false l0 l)
      acquires_new (granted k t r l0 e0 n po aw asl) = absurd (true-ne-false l0 l)
  FrontEffect-Permission (pushes t s l l' eq ow v e st out hf hw) =
      pushes-Permission i p' inv inv.permission t s l l' eq ow v e st out hf
  FrontEffect-Permission (resumes s t rest fi w l eq eq' e wp hf hw cu cu') =
      resumes-Permission i p' inv inv.permission s t rest fi w l eq eq' e wp hf cu cu'
  FrontEffect-Permission (releases eq eq' l e hf out) =
      released l eq' (nobody_now pc i p' (only_front inv.permission) out.0)
    where
      only_front : Permission q f pc → (j : ℕ) → has_front (pc j) ≡ true → j ≡ i
      only_front (released l0 e0 n) j x = absurd (true-ne-false x (n j))
      only_front (held h k l0 hh un cu0 po asl) j x = un j x ∙ sym (un i hf)
      only_front (granted k t r l0 e0 n po aw asl) j x = absurd (true-ne-false x (n j))
  FrontEffect-Permission (grants s s' t rest eq eq' l ft e aw hf out) =
      grants-Permission i p' inv inv.permission s s' t rest eq eq' l ft e aw hf out.0

  FrontEffect-Distinct : FrontEffect i q f (pc i) q' f' p' → Distinct (owners q'.queue)
  FrontEffect-Distinct (stays l o e hf hw keep cur) = subst Distinct (sym o) inv.distinct
  FrontEffect-Distinct (stirs s s' eq fi e st aw w ep) =
      subst (λ r. Distinct (owners r.queue)) (sym eq) inv.distinct
  FrontEffect-Distinct (acquires l l' eq e out hf hw cu) =
      subst (λ xs. Distinct (owners xs)) (sym eq) inv.distinct
  FrontEffect-Distinct (pushes t s l l' eq ow v e st out hf hw) =
      subst Distinct
        (sym
          (ap owners eq ∙ owners-append q.queue (t ∷ []) ∙ ap (λ x. owners q.queue ++ x ∷ []) ow))
        (Distinct-append i (owners q.queue) (inv.queued i ∙ out.1) inv.distinct)
  FrontEffect-Distinct (resumes s t rest fi w l eq eq' e wp hf hw cu cu') =
      subst (λ xs. Distinct (owners xs)) (sym eq')
        (subst (λ xs. Distinct (owners xs)) eq inv.distinct).1
  FrontEffect-Distinct (releases eq eq' l e hf out) =
      subst (λ xs. Distinct (owners xs)) (sym eq') tt
  FrontEffect-Distinct (grants s s' t rest eq eq' l ft e aw hf out) =
      subst (λ xs. Distinct (owners xs)) (sym eq') inv.distinct

  -- Which tasks are queued, with `o` the owners after the move.
  FrontEffect-queued :
      FrontEffect i q f (pc i) q' f' p'
      → (j : ℕ) → owns j (owners q'.queue) ≡ is_waiting (update pc i p' j)
  FrontEffect-queued (stays l o e hf hw keep cur) j = ground (arith, inv.queued j)
  FrontEffect-queued (stirs s s' eq fi e st aw w ep) j =
      subst (λ r. owns j (owners r.queue) ≡ is_waiting (update pc i p' j)) (sym eq)
        (ground (arith, inv.queued j))
  FrontEffect-queued (acquires l l' eq e out hf hw cu) j = ground (arith, inv.queued j)
  FrontEffect-queued (pushes t s l l' eq ow v e st out hf hw) j =
      ap (λ xs. owns j (owners xs)) eq
      ∙ ap (owns j) (owners-append q.queue (t ∷ []) ∙ ap (λ x. owners q.queue ++ x ∷ []) ow)
      ∙ owns-append j i (owners q.queue)
      ∙ ground (arith, inv.queued j)
  FrontEffect-queued (resumes s t rest fi w l eq eq' e wp hf hw cu cu') j =
      let own = front_task-state inv i s t rest fi w wp eq in
      ground (
        arith,
        inv.queued j,
        ap owners eq,
        ap owners eq',
        subst (λ xs. Distinct (owners xs)) eq inv.distinct,
      )
  FrontEffect-queued (releases eq eq' l e hf out) j =
      ground (arith, inv.queued j, ap owners eq, ap owners eq')
  FrontEffect-queued (grants s s' t rest eq eq' l ft e aw hf out) j =
      ground (arith, inv.queued j, inv.queued i, waiting-no_front (pc i), ap owners eq')

  FrontEffect-live :
      FrontEffect i q f (pc i) q' f' p' → (j : ℕ) → is_live (f' j) ≡ is_waiting (update pc i p' j)
  FrontEffect-live (stays l o e hf hw keep cur) j = ground (arith, inv.live j, ap (λ g. g j) e)
  FrontEffect-live (stirs s s' eq fi e st aw w ep) j = ground (arith, inv.live j, ap (λ g. g j) e)
  FrontEffect-live (acquires l l' eq fe out hf hw cu) j =
      ground (arith, inv.live j, ap (λ g. g j) fe)
  FrontEffect-live (pushes t s l l' eq ow v fe st out hf hw) j =
      ground (arith, inv.live j, ap (λ g. g j) fe)
  FrontEffect-live (resumes s t rest fi w l eq eq' fe wp hf hw cu cu') j =
      ground (arith, inv.live j, ap (λ g. g j) fe)
  FrontEffect-live (releases eq eq' l fe hf out) j =
      ground (arith, inv.live j, waiting-no_front (pc i), ap (λ g. g j) fe)
  FrontEffect-live (grants s s' t rest eq eq' l ft fe aw hf out) j =
      ground (arith, inv.live j, inv.live t.state, waiting-no_front (pc i), ap (λ g. g j) fe)

  -- What holds of the queue and the permission is kept.
  pub FrontEffect-FrontInv : FrontEffect i q f (pc i) q' f' p' → FrontInv q' f' (update pc i p')
  FrontEffect-FrontInv e = record {
    distinct = FrontEffect-Distinct e;
    queued = FrontEffect-queued e;
    live = FrontEffect-live e;
    permission = FrontEffect-Permission e;
  }
