-- ===== src/Finish/Barging.antt =====
-- Who gets the front permission of src/queue.rs: nobody gets past the threads that wait.
use contention_queue.Prelude.{
  ℕ, ◌≡◌, ◌⊎◌, refl, ap, ◌∙◌, true, false, inl, inr, List, [], ◌∷◌, arith,
}
use contention_queue.Interface.{Client}
use contention_queue.Shape.{owners}
use contention_queue.World.{World, exclusive, Pc}
use contention_queue.Process.{start_waiting, unwind}
use contention_queue.Process.Branches.{lock_and_process-cases}
use contention_queue.Process.Paths.{process-paths}
use contention_queue.System.{System, Move, Reach, locks, enters, resumes}
use contention_queue.Invariant.{has_front, is_waiting}
use contention_queue.Invariant.Front.Owner.{front_task}
use contention_queue.Invariant.Moves.{Reach-Inv}
use contention_queue.Order.History.{free-empty}

module _ {c : Client} {addr : ℕ} {s : System c} (r : Reach addr s) (j : ℕ) where
  -- The queue is empty and the front is free, or thread `j` waits and its task is the first.
  abbrev pub IsNext : Type 0
  IsNext =
      (((exclusive s.world).queue ≡ []) × ((exclusive s.world).front_locked ≡ false))
      ⊎ ((rest : List ℕ) × (owners (exclusive s.world).queue ≡ j ∷ rest)
          × (is_waiting (s.pc j) ≡ true))

  gets-front :
      {p p' : Pc c} {w' : World c}
      → Move addr j s.world p w' p'
      → s.pc j ≡ p
      → has_front p ≡ false
      → has_front p' ≡ true
      → IsNext
  unfolding start_waiting unwind
  gets-front (locks {v} {task} free) at before got =
      lock_and_process-cases (λ x. has_front x.1 ≡ true → IsNext) j s.world v task
        (λ yes. absurd (ground arith)) (λ yes. absurd (ground arith)) got
  gets-front (enters {v} {task}) at before got =
      let empty = free-empty s.world (Reach-Inv r).front.permission in
      process-paths (λ x. has_front x.1 ≡ true → IsNext) j s.world v task addr
        (λ _ yes. absurd (ground arith)) (λ a e l yes. absurd (ground arith))
        (λ a e free yes. inl (empty free, free)) (λ a e free yes. inl (empty free, free)) got
  gets-front (resumes {task} {s = ts} free live awake turn e) at before got =
      let waits = ap is_waiting at in
      let (t, rest, eq, own) = front_task (Reach-Inv r).front j ts live (λ n. ground arith) waits in
      inr (owners rest, ap owners eq ∙ ap (λ x. x ∷ owners rest) own, waits)
  gets-front _ at before got = absurd (ground arith)

  -- In every reachable state, if a move of thread `j` gives it the front permission, then either
  -- nobody waits and the front is free, or `j` has waited and its task is the first in the queue: a
  -- new call does not get past the threads that wait.
  pub no_barging :
      {p' : Pc c} {w' : World c}
      → Move addr j s.world (s.pc j) w' p'
      → has_front (s.pc j) ≡ false
      → has_front p' ≡ true
      → IsNext
  no_barging m before got = gets-front m refl before got
