-- ===== src/Safety/Undisturbed.antt =====
-- What a callback may rely on while other threads move, also in the closure of `unlocked`.
use contention_queue.Prelude.{
  ℕ, ◌≡◌, ◌≢◌, refl, sym, ap, ◌∙◌, true, false, some, [], ◌∷◌, ◌++◌, get_elem?, get_elem?-append,
  update_self, update_ne, arith, Option-cases, inl, inr,
}
use contention_queue.Interface.{Client}
use contention_queue.Poisoning.{value}
use contention_queue.Task.{ErasedTask, inner}
use contention_queue.QueueState.{MutexExclusive}
use contention_queue.Handle.{QueueHandle, peek, expect}
use contention_queue.World.{World, Pc, exclusive}
use contention_queue.System.{System, Move, Reach, later, pick}
use contention_queue.Invariant.{has_front}
use contention_queue.Invariant.Front.{
  FrontEffect, stays, stirs, acquires, pushes, resumes, releases, grants,
}
use contention_queue.Invariant.Front.Moved.{eq-false_of_ne, true-ne-false}
use contention_queue.Invariant.Moves.{Reach-Inv, Move-Effect}
use contention_queue.Safety.{front_exclusion}
use contention_queue.Safety.Frame.{front_untouched}

module _ {V : Type 0} (h : QueueHandle) (q q' : MutexExclusive V) (v : V) where
  peek-queue : q'.queue ≡ q.queue → peek h q ≡ value (some v) → peek h q' ≡ value (some v)
  unfolding peek
  peek-queue e p = ground arith

  -- A push at the back does not change what the handle sees.
  peek-push :
      (t : ErasedTask V)
      → q'.queue ≡ q.queue ++ t ∷ []
      → peek h q ≡ value (some v)
      → peek h q' ≡ value (some v)
  unfolding peek expect inner
  peek-push t e p = elim (Option-cases (get_elem? q.queue h.next_idx)) [
    | inl gone ↦ absurd (ground arith)
    | inr (u, found) ↦
        let still = get_elem?-append q.queue (t ∷ []) h.next_idx u found in ground (arith, still)
  ]

module _ {c : Client} {addr : ℕ} {s : System c} (r : Reach addr s) (i j : ℕ) {w : World c}
    {p : Pc c} (m : Move addr j s.world (s.pc j) w p) where
  -- In every reachable state, while a thread has exclusive permissions over `front_exclusive`, a move of
  -- any other thread leaves the front state as it was, and leaves in its place the next value that
  -- the handle of the first thread has seen, also while the mutex is unlocked.
  pub undisturbed :
      (h : QueueHandle) (v : c.Value)
      → has_front (s.pc i) ≡ true
      → i ≢ j
      → peek h (exclusive s.world) ≡ value (some v)
      → (w.cq.front_exclusive ≡ s.world.cq.front_exclusive)
        × (peek h (exclusive w) ≡ value (some v))
  undisturbed h v own ne sees =
      (front_untouched m out, go (Move-Effect (Reach-Inv r).front refl m).front)
    where
      out : has_front (s.pc j) ≡ false
      out = eq-false_of_ne (λ other. ne (front_exclusion r i j own other).0)

      alone : has_front p ≢ true
      alone other =
          ne
            (front_exclusion (later r (pick j m)) i j
              (ap has_front (update_ne s.pc j i p (λ e. ne (sym e))) ∙ own)
              (ap has_front (update_self s.pc j p) ∙ other)).0

      go :
          FrontEffect j (exclusive s.world) s.world.frames (s.pc j) (exclusive w) w.frames p
          → peek h (exclusive w) ≡ value (some v)
      go (stays l o f hf wp e po) = peek-queue h (exclusive s.world) (exclusive w) v (e out) sees
      go (stirs a b e fi f st aw wp pe) =
          peek-queue h (exclusive s.world) (exclusive w) v (ap (λ q. q.queue) e) sees
      go (acquires l l' e f o hf wp cu) = peek-queue h (exclusive s.world) (exclusive w) v e sees
      go (pushes t ts l l' e own_ hv f st o hf wp) =
          peek-push h (exclusive s.world) (exclusive w) v t e sees
      go (resumes ts t rest fi aw l e e' f wp hf wp' cu cu') = absurd (alone hf)
      go (releases e e' l f hf o) = absurd (true-ne-false hf out)
      go (grants a b t rest e e' l fi f wk hf o) = absurd (true-ne-false hf out)
