-- ===== src/Invariant/Front/Keeps.antt =====
-- The permission where it stays with its thread, and where a waiting thread blocks or unblocks.
use contention_queue.Prelude.{
  ℕ, ◌≡◌, refl, sym, subst, ap, ◌∙◌, true, false, Option, some, List, update, update_self,
  update_ne, ℕ_discrete, Bool-cases, inl, inr,
}
use contention_queue.Interface.{Client}
use contention_queue.TaskState.{TaskState}
use contention_queue.QueueState.{MutexExclusive}
use contention_queue.Shape.{owners, owns, Asleep, Awake, AllAsleep, Popped}
use contention_queue.Shape.Owners.{AllAsleep-update, AllAsleep-update_asleep, AllAsleep-owns}
use contention_queue.World.{Pc}
use contention_queue.Invariant.{
  has_front, is_waiting, Cursor, Permission, released, held, granted, FrontInv,
}
use contention_queue.Invariant.Front.Moved.{
  eq-false_of_ne, nobody_still, only_still, only_mover, front_self, front_ne, Cursor-self,
  Cursor-ne, AllAsleep-cong,
}
use contention_queue.Invariant.Front.Waiters.{
  waiting-no_front, waiter-Asleep, waiter-queue_ne, not_holder, Cursor-at,
}

-- A thread that blocks or unblocks changes neither which frames sleep nor which are awake.
module _ (f : ℕ → Option TaskState) (i : ℕ) (s s' : TaskState) where
  Awake-stir :
      {f' : ℕ → Option TaskState} (j : ℕ)
      → f i ≡ some s
      → f' ≡ update f i (some s')
      → (Awake (some s) → Awake (some s'))
      → Awake (f j)
      → Awake (f' j)
  Awake-stir j fi ef aw a = elim (ℕ_discrete i j) [
    | yes e ↦
        subst Awake
          (sym (ap (λ g. g j) ef ∙ ap (update f i (some s')) (sym e) ∙ update_self f i (some s')))
          (aw (subst Awake (ap f (sym e) ∙ fi) a))
    | no ne ↦ subst Awake (sym (ap (λ g. g j) ef ∙ update_ne f i j (some s') ne)) a
  ]

  AllAsleep-stir :
      (xs : List ℕ)
      → f i ≡ some s
      → s'.state ≡ s.state
      → AllAsleep f xs
      → AllAsleep (update f i (some s')) xs
  AllAsleep-stir xs fi st asl = elim (Bool-cases (owns i xs)) [
    | inl h ↦
        AllAsleep-update_asleep f i s' xs (st ∙ subst Asleep fi (AllAsleep-owns f i xs asl h)) asl
    | inr h ↦ AllAsleep-update f i (some s') xs h asl
  ]

module _ {c : Client} (i : ℕ) {q q' : MutexExclusive c.Value} {f f' : ℕ → Option TaskState}
    (p' : Pc c) {pc : ℕ → Pc c} (inv : FrontInv q f pc) where
  pub stays-Permission :
      Permission q f pc
      → q'.front_locked ≡ q.front_locked
      → owners q'.queue ≡ owners q.queue
      → f' ≡ f
      → has_front p' ≡ has_front (pc i)
      → (has_front (pc i) ≡ false → q'.queue ≡ q.queue)
      → ((k : ℕ)
          → Cursor (pc i) k
          → Popped k q.queue
          → (k' : ℕ) × Cursor p' k' × Popped k' q'.queue)
      → Permission q' f' (update pc i p')
  stays-Permission (released l e n) l' os ef hf keep cur =
      released (l' ∙ l) (keep (n i) ∙ e) (nobody_still pc i p' n (hf ∙ n i))
  stays-Permission (held h k l hh un cu po asl) l' os ef hf keep cur = elim (ℕ_discrete h i) [
    | yes e ↦
        let moved = cur k (Cursor-at pc h i k e cu) po in
        held i moved.0 (l' ∙ l)
          (front_self pc i p' (hf ∙ subst (λ (j : ℕ). has_front (pc j) ≡ true) e hh))
          (only_mover pc i p' (λ j t. un j t ∙ e)) (Cursor-self pc i p' moved.0 moved.1) moved.2
          (AllAsleep-cong ef os asl)
    | no ne ↦
        let out = eq-false_of_ne (λ t. ne (sym (un i t))) in
        held h k (l' ∙ l) (front_ne pc i p' h (λ e. ne (sym e)) hh)
          (only_still pc i p' h un (hf ∙ out)) (Cursor-ne pc i p' h k (λ e. ne (sym e)) cu)
          (subst (Popped k) (sym (keep out)) po) (AllAsleep-cong ef os asl)
  ]
  stays-Permission (granted k t r l e n po aw asl) l' os ef hf keep cur =
      granted k t r (l' ∙ l) (keep (n i) ∙ e) (nobody_still pc i p' n (hf ∙ n i)) po
        (subst (λ (g : ℕ → Option TaskState). Awake (g t.state)) (sym ef) aw)
        (AllAsleep-cong ef refl asl)

  pub stirs-Permission :
      Permission q f pc
      → (s s' : TaskState) → q' ≡ q
      → f i ≡ some s
      → f' ≡ update f i (some s')
      → s'.state ≡ s.state
      → (Awake (some s) → Awake (some s'))
      → is_waiting (pc i) ≡ true
      → p' ≡ pc i
      → Permission q' f' (update pc i p')
  stirs-Permission (released l e n) s s' eq fi ef st aw w ep = absurd (waiter-queue_ne inv i e w)
  stirs-Permission (held h k l hh un cu po asl) s s' eq fi ef st aw w ep =
      let out = waiting-no_front (pc i) w in
      let ne = not_holder inv i hh out in
      subst (λ r. Permission r f' (update pc i p')) (sym eq)
        (held h k l (front_ne pc i p' h ne hh) (only_still pc i p' h un (ap has_front ep ∙ out))
          (Cursor-ne pc i p' h k ne cu) po
          (AllAsleep-cong ef refl (
            AllAsleep-update_asleep f i s' (owners q.queue)
              (st ∙ subst Asleep fi (waiter-Asleep inv i asl w)) asl)))
  stirs-Permission (granted k t r l e n po awk asl) s s' eq fi ef st aw w ep =
      subst (λ r. Permission r f' (update pc i p')) (sym eq)
        (granted k t r l e (nobody_still pc i p' n (ap has_front ep ∙ n i)) po
          (Awake-stir f i s s' t.state fi ef aw awk)
          (AllAsleep-cong ef refl (AllAsleep-stir f i s s' (owners r) fi st asl)))
