-- ===== src/Safety/Aliasing.antt =====
-- The aliasing rules of `UnsafeMutexCell::get_mut` of src/externally_synchronized.rs: which moves call
-- it on the cells of a queue, and where a reference that it gave is live.
use contention_queue.Prelude.{
  ℕ, ◌≡◌, refl, sym, ap, ◌∙◌, Bool, true, false, some, arith, update_self, update_ne, ℕ_discrete,
}
use contention_queue.Interface.{Client}
use contention_queue.World.{World, Pc, running, unlocked}
use contention_queue.System.{
  System, Move, Reach, later, pick, enters, resumes, re_locks, settles, fails, asks, clears,
  asks_unlocked, clears_unlocked,
}
use contention_queue.Invariant.{holds_lock, has_front, LockInv}
use contention_queue.Invariant.Moves.{Reach-Inv}
use contention_queue.Invariant.Front.Moved.{eq-false_of_ne}
use contention_queue.Safety.{front_exclusion}

module _ {c : Client} where
  -- Between two moves, a reference to the state behind the mutex is live in the handle of a running
  -- callback; `unlocked` gives it up before it drops the guard.
  abbrev pub refers_to_exclusive : Pc c → Bool
  refers_to_exclusive (running _ _) = true
  refers_to_exclusive _ = false

  -- A reference to the front state is live for the whole of a callback.
  abbrev pub refers_to_front : Pc c → Bool
  refers_to_front (running _ _) = true
  refers_to_front (unlocked _ _) = true
  refers_to_front _ = false

  -- The moves in which `mutex_exclusive.get_mut()` is called.
  abbrev pub gets_exclusive :
      {addr i : ℕ} {w w' : World c} {p p' : Pc c} → Move addr i w p w' p' → Bool
  gets_exclusive enters = true
  gets_exclusive (resumes free live awake turn e) = true
  gets_exclusive (re_locks output free) = true
  gets_exclusive (settles e) = true
  gets_exclusive (fails free e) = true
  gets_exclusive (asks free e) = true
  gets_exclusive (asks_unlocked free e) = true
  gets_exclusive (clears free e) = true
  gets_exclusive (clears_unlocked free e) = true
  gets_exclusive _ = false

  -- The moves in which `front_exclusive.get_mut()` is called: those that start a callback.
  abbrev pub gets_front : {addr i : ℕ} {w w' : World c} {p p' : Pc c} → Move addr i w p w' p' → Bool
  gets_front {p' = p'} enters = refers_to_exclusive p'
  gets_front {p' = p'} (resumes free live awake turn e) = refers_to_exclusive p'
  gets_front _ = false

  running-holds : (p : Pc c) → refers_to_exclusive p ≡ true → holds_lock p ≡ true
  running-holds p h = ground arith

  unaliased :
      {addr i : ℕ} {w w' : World c} {p p' : Pc c} {pc : ℕ → Pc c} (j : ℕ)
      → LockInv w.mutex.holder pc
      → pc i ≡ p
      → (m : Move addr i w p w' p') → gets_exclusive m ≡ true
      → refers_to_exclusive (pc j) ≡ true
      → w.mutex.holder ≡ some j
      → ⊥
  unaliased {i = i} {pc = pc} j inv at enters gets refers locked =
      ground (arith, inv.locked i, ap holds_lock at, ap refers_to_exclusive at)
  unaliased {i = i} {pc = pc} j inv at (settles e) gets refers locked =
      ground (arith, inv.locked i, ap holds_lock at, ap refers_to_exclusive at)
  unaliased j inv at (resumes free live awake turn e) gets refers locked = ground arith
  unaliased j inv at (re_locks output free) gets refers locked = ground arith
  unaliased j inv at (fails free e) gets refers locked = ground arith
  unaliased j inv at (asks free e) gets refers locked = ground arith
  unaliased j inv at (asks_unlocked free e) gets refers locked = ground arith
  unaliased j inv at (clears free e) gets refers locked = ground arith
  unaliased j inv at (clears_unlocked free e) gets refers locked = ground arith
  unaliased j inv at _ gets refers locked = ground arith

  starts_outside :
      {addr i : ℕ} {w w' : World c} {p p' : Pc c}
      → (m : Move addr i w p w' p') → gets_front m ≡ true
      → (refers_to_front p ≡ false) × (has_front p' ≡ true)
  starts_outside {p' = p'} enters gets = (refl, has p' gets)
    where
      has : (p : Pc c) → refers_to_exclusive p ≡ true → has_front p ≡ true
      has p h = ground arith
  starts_outside {p' = p'} (resumes free live awake turn e) gets = (refl, has p' gets)
    where
      has : (p : Pc c) → refers_to_exclusive p ≡ true → has_front p ≡ true
      has p h = ground arith
  starts_outside _ gets = absurd (ground arith)

module _ {c : Client} {addr : ℕ} {s : System c} (r : Reach addr s) (i j : ℕ) {w : World c}
    {p : Pc c} (m : Move addr i s.world (s.pc i) w p) where
  -- In every reachable state, if a thread makes a move in which it calls `get_mut` on the cell with
  -- the state behind the mutex, then no thread has a live reference to the contents of that cell.
  pub exclusive_unaliased : gets_exclusive m ≡ true → refers_to_exclusive (s.pc j) ≡ false
  exclusive_unaliased gets = eq-false_of_ne (λ refers.
      unaliased j (Reach-Inv r).lock refl m gets refers
        ((Reach-Inv r).lock.locked j (running-holds (s.pc j) refers)))

  -- In every reachable state, if a thread makes a move in which it calls `get_mut` on the cell with
  -- the front state, then no thread has a live reference to the contents of that cell.
  pub front_unaliased : gets_front m ≡ true → refers_to_front (s.pc j) ≡ false
  front_unaliased gets =
      let (before, after) = starts_outside m gets in
      elim (ℕ_discrete i j) [
        | yes e ↦ ap (λ x. refers_to_front (s.pc x)) (sym e) ∙ before
        | no ne ↦ eq-false_of_ne (λ refers.
            ne
              (front_exclusion (later r (pick i m)) i j
                (ap has_front (update_self s.pc i p) ∙ after)
                (ap has_front (update_ne s.pc i j p ne) ∙ front_holds (s.pc j) refers)).0)
      ]
    where
      front_holds : (p : Pc c) → refers_to_front p ≡ true → has_front p ≡ true
      front_holds p h = ground arith
