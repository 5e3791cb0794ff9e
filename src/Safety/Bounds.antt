-- ===== src/Safety/Bounds.antt =====
-- The ranges of the index of a handle and of the state byte of a task.
use contention_queue.Prelude.{
  ℕ, zero, suc, ◌≡◌, ◌≤◌, ◌⊎◌, inl, inr, sym, subst, ap, ◌∙◌, true, some, List, [], ◌∷◌, length,
  arith, ℕ_discrete, ==_iff,
}
use contention_queue.Interface.{Client, Callback}
use contention_queue.TaskState.{TaskState}
use contention_queue.Task.{ErasedTask}
use contention_queue.Handle.{QueueHandle}
use contention_queue.World.{exclusive, running}
use contention_queue.System.{System, Reach}
use contention_queue.Shape.{Popped, owners, owns, Asleep, Awake, is_live}
use contention_queue.Shape.Owners.{AllAsleep-owns}
use contention_queue.Invariant.{Permission, released, held, granted}
use contention_queue.Invariant.Moves.{Reach-Inv, handle-Popped}

Popped-length {ℓ} : {V : Type ℓ} (k : ℕ) (q : List (ErasedTask V)) → Popped k q → k ≤ length q
Popped-length zero q p = omega arith
Popped-length (suc k) [] p = absurd p
Popped-length (suc k) (t ∷ q) p = let rest = Popped-length k q p.1 in omega (arith, rest)

module _ {c : Client} {addr : ℕ} {s : System c} (r : Reach addr s) (i : ℕ) where
  -- In every reachable state, the index of the handle of a running callback is at most the length of
  -- the queue.
  next_idx-length :
      (h : QueueHandle) (k : Callback c)
      → s.pc i ≡ running h k
      → h.next_idx ≤ length (exclusive s.world).queue
  next_idx-length h k at =
      Popped-length h.next_idx (exclusive s.world).queue
        (handle-Popped s.world i (Reach-Inv r).front at)

  -- In every reachable state, the state byte of each live task is 0, the front bit alone, or both
  -- bits: the panic bit is not set without the front bit.
  pub state_byte :
      (ts : TaskState)
      → s.world.frames i ≡ some ts
      → (ts.state ≡ 0) ⊎ ((ts.state ≡ 1) ⊎ (ts.state ≡ 3))
  state_byte ts live = go (Reach-Inv r).front.permission
    where
      queued : owns i (owners (exclusive s.world).queue) ≡ true
      queued = let inv = (Reach-Inv r).front in inv.queued i ∙ sym (inv.live i) ∙ ap is_live live

      sleeps : Asleep (s.world.frames i) → ts.state ≡ 0
      sleeps = subst (λ o. Asleep o → ts.state ≡ 0) (sym live) (λ z. z)

      wakes : Awake (s.world.frames i) → (ts.state ≡ 1) ⊎ (ts.state ≡ 3)
      wakes = subst (λ o. Awake o → (ts.state ≡ 1) ⊎ (ts.state ≡ 3)) (sym live) (λ z. z.0)

      go :
          Permission (exclusive s.world) s.world.frames s.pc
          → (ts.state ≡ 0) ⊎ ((ts.state ≡ 1) ⊎ (ts.state ≡ 3))
      go (released l e nf) = absurd (ground (arith, queued))
      go (held h k l hf un cu po asl) =
          inl
            (sleeps (AllAsleep-owns s.world.frames i (owners (exclusive s.world).queue) asl queued))
      go (granted k t rest l e nf po aw asl) = elim (ℕ_discrete t.state i) [
        | yes own ↦ inr (wakes (subst (λ x. Awake (s.world.frames x)) own aw))
        | no other ↦
            let behind : owns i (owners rest) ≡ true =
              let differs = (==_iff t.state i).0 in ground (arith, queued, differs) in
            inl (sleeps (AllAsleep-owns s.world.frames i (owners rest) asl behind))
      ]
