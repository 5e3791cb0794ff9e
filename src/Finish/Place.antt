-- ===== src/Finish/Place.antt =====
-- That the threads in the queue of src/queue.rs keep the order in which they came.
use contention_queue.Prelude.{
  ℕ, Option, suc, ◌≡◌, ◌≢◌, ◌<◌, ◌⊎◌, inl, inr, refl, sym, subst, ap, ◌∙◌, true, false, List, [],
  ◌∷◌, ◌++◌, length, update, update_self, update_ne, ℕ_discrete, arith, ==_iff,
}
use contention_queue.Interface.{Client}
use contention_queue.TaskState.{TaskState}
use contention_queue.QueueState.{MutexExclusive}
use contention_queue.World.{World, Pc, exclusive}
use contention_queue.System.{System, Move, Reach}
use contention_queue.Shape.{owners, owns}
use contention_queue.Shape.Owners.{owners-append}
use contention_queue.Invariant.{is_waiting, FrontInv}
use contention_queue.Invariant.Front.{FrontEffect}
use contention_queue.Invariant.Front.Owner.{front_task-state}
use contention_queue.Invariant.Front.Moved.{true-ne-false}
use contention_queue.Invariant.Moves.{Reach-Inv, Move-Effect}
use contention_queue.Finish.{ahead}
use contention_queue.Finish.Moves.{place-stays, ahead-append}

ahead-lt-length : (i : ℕ) (xs : List ℕ) → owns i xs ≡ true → ahead i xs < length xs
ahead-lt-length i [] own = absurd (ground arith)
ahead-lt-length i (x ∷ xs) own = ground (arith, ahead-lt-length i xs)

ahead-last : (j : ℕ) (xs : List ℕ) → owns j xs ≡ false → ahead j (xs ++ j ∷ []) ≡ length xs
ahead-last j [] out = ground arith
ahead-last j (x ∷ xs) out = ground (arith, ahead-last j xs)

-- A newcomer stands behind the threads that are there.
pub ahead-newcomer :
    (i j : ℕ) (xs : List ℕ)
    → owns i xs ≡ true
    → owns j xs ≡ false
    → ahead i (xs ++ j ∷ []) < ahead j (xs ++ j ∷ [])
ahead-newcomer i j xs own out =
    let here = ahead-append i j xs own in
    let last = ahead-last j xs out in
    let less = ahead-lt-length i xs own in omega (arith, here, last, less)

pub ahead-cons : (i x : ℕ) (xs : List ℕ) → x ≢ i → ahead i (x ∷ xs) ≡ suc (ahead i xs)
ahead-cons i x xs ne = let other = (==_iff x i).0 in ground (arith, other)

module _ {c : Client} {k : ℕ} {q q' : MutexExclusive c.Value} {f f' : ℕ → Option TaskState}
    {pc : ℕ → Pc c} {p' : Pc c} (inv : FrontInv q f pc) (i j : ℕ)
    (own : owns i (owners q.queue) ≡ true) where
  -- Two threads that wait before and after a move of thread `k`.
  order_kept :
      FrontEffect k q f (pc k) q' f' p'
      → owns j (owners q.queue) ≡ true
      → (k ≡ i → is_waiting p' ≡ true)
      → (k ≡ j → is_waiting p' ≡ true)
      → ahead i (owners q.queue) < ahead j (owners q.queue)
      → ahead i (owners q'.queue) < ahead j (owners q'.queue)
  order_kept (FrontEffect.stays l o fr hf wp e po) own' mi mj less =
      subst (λ xs. ahead i xs < ahead j xs) (sym o) less
  order_kept (FrontEffect.stirs s s' e fi fr st aw wp pe) own' mi mj less =
      subst (λ x. ahead i (owners x.queue) < ahead j (owners x.queue)) (sym e) less
  order_kept (FrontEffect.acquires l l' e fr o hf wp cu) own' mi mj less =
      subst (λ x. ahead i (owners x) < ahead j (owners x)) (sym e) less
  order_kept (FrontEffect.pushes t s l l' e ts hv fr st o hf wp) own' mi mj less =
      let eff : FrontEffect k q f (pc k) q' f' p' =
        FrontEffect.pushes t s l l' e ts hv fr st o hf wp in
      let here = place-stays i eff o.1 own in
      let there = place-stays j eff o.1 own' in omega (arith, less, here, there)
  order_kept (FrontEffect.resumes s t rest fi w l e e' fr wp hf wp' cu cu') own' mi mj less =
      let mine = front_task-state inv k s t rest fi w wp e in
      let not_i : t.state ≢ i = λ x. true-ne-false (mi (sym mine ∙ x)) wp' in
      let not_j : t.state ≢ j = λ x. true-ne-false (mj (sym mine ∙ x)) wp' in
      let before = subst (λ x. ahead i (owners x) < ahead j (owners x)) e less in
      let here = ahead-cons i t.state (owners rest) not_i in
      let there = ahead-cons j t.state (owners rest) not_j in
      subst (λ x. ahead i (owners x) < ahead j (owners x)) (sym e')
        (omega (arith, before, here, there))
  order_kept (FrontEffect.releases e e' l fr hf o) own' mi mj less =
      absurd (ground (arith, own, ap (λ x. owns i (owners x)) e))
  order_kept (FrontEffect.grants s s' t rest e e' l fi fr wk hf o) own' mi mj less =
      subst (λ x. ahead i (owners x) < ahead j (owners x)) (sym e') less

  -- A thread that begins to wait.
  order_joined :
      FrontEffect k q f (pc k) q' f' p'
      → k ≡ j
      → is_waiting (pc k) ≡ false
      → is_waiting p' ≡ true
      → ahead i (owners q'.queue) < ahead j (owners q'.queue)
  order_joined (FrontEffect.pushes t s l l' e ts hv fr st o hf wp) same out waits =
      let outside = subst (λ x. owns x (owners q.queue) ≡ false) same (inv.queued k ∙ out) in
      subst (λ xs. ahead i xs < ahead j xs)
        (sym (
          ap owners e
          ∙ owners-append q.queue (t ∷ [])
          ∙ ap (λ x. owners q.queue ++ x ∷ []) (ts ∙ same)))
        (ahead-newcomer i j (owners q.queue) own outside)
  order_joined (FrontEffect.stays l o fr hf wp e po) same out waits =
      absurd (true-ne-false waits (wp ∙ out))
  order_joined (FrontEffect.stirs s s' e fi fr st aw wp pe) same out waits =
      absurd (true-ne-false wp out)
  order_joined (FrontEffect.acquires l l' e fr o hf wp cu) same out waits =
      absurd (true-ne-false waits wp)
  order_joined (FrontEffect.resumes s t rest fi w l e e' fr wp hf wp' cu cu') same out waits =
      absurd (true-ne-false waits wp')
  order_joined (FrontEffect.releases e e' l fr hf o) same out waits =
      absurd (true-ne-false waits o.1)
  order_joined (FrontEffect.grants s s' t rest e e' l fi fr wk hf o) same out waits =
      absurd (true-ne-false waits o.1)

-- In every reachable state, a move of any thread that leaves threads `i` and `j` waiting leaves the
-- task of `i` before that of `j`, if it was so before the move, or if `i` waited then and `j` did
-- not: threads keep the order in which they came.
pub never_overtaken :
    {c : Client} {addr k : ℕ} {s : System c} {w : World c} {p : Pc c} (i j : ℕ)
    → Reach addr s
    → Move addr k s.world (s.pc k) w p
    → is_waiting (s.pc i) ≡ true
    → is_waiting (update s.pc k p i) ≡ true
    → is_waiting (update s.pc k p j) ≡ true
    → ((is_waiting (s.pc j) ≡ true)
        × (ahead i (owners (exclusive s.world).queue) < ahead j (owners (exclusive s.world).queue)))
      ⊎ (is_waiting (s.pc j) ≡ false)
    → ahead i (owners (exclusive w).queue) < ahead j (owners (exclusive w).queue)
never_overtaken {k = k} {s} {w} {p} i j r m before after after' order = elim order [
  | inl (waits, less) ↦
      order_kept inv i j own effect (inv.queued j ∙ waits) (mover i after) (mover j after') less
  | inr out ↦ elim (ℕ_discrete k j) [
    | yes same ↦
        order_joined inv i j own effect same (ap (λ x. is_waiting (s.pc x)) same ∙ out)
          (mover j after' same)
    | no ne ↦ absurd (true-ne-false after' (ap is_waiting (update_ne s.pc k j p ne) ∙ out))
  ]
]
  where
    inv : FrontInv (exclusive s.world) s.world.frames s.pc
    inv = (Reach-Inv r).front

    own : owns i (owners (exclusive s.world).queue) ≡ true
    own = inv.queued i ∙ before

    effect : FrontEffect k (exclusive s.world) s.world.frames (s.pc k) (exclusive w) w.frames p
    effect = (Move-Effect inv refl m).front

    mover : (x : ℕ) → is_waiting (update s.pc k p x) ≡ true → k ≡ x → is_waiting p ≡ true
    mover x waits same =
        sym (ap is_waiting (ap (update s.pc k p) (sym same) ∙ update_self s.pc k p)) ∙ waits
