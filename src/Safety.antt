-- ===== src/Safety.antt =====
-- What the `# Safety` comments of src/queue.rs and src/queue_handle.rs rely on, in every state that
-- threads can reach.
pub mod Memory
pub mod Progress
pub mod Hang
pub mod Frame
pub mod Aliasing
pub mod Poisoned
pub mod Undisturbed
pub mod Bounds
pub mod Address
pub mod Lent
pub mod Peaceful
pub mod Escaped
use contention_queue.Prelude.{ℕ, ◌≡◌, sym, ◌∙◌, true, some, arith, Option}
use contention_queue.Interface.{Client}
use contention_queue.World.{exclusive}
use contention_queue.System.{System, Reach}
use contention_queue.Invariant.{has_front, holds_lock, Permission, released, held, granted}
use contention_queue.Invariant.Front.Moved.{true-ne-false}
use contention_queue.Invariant.Moves.{Reach-Inv}

module _ {c : Client} {addr : ℕ} {s : System c} (r : Reach addr s) (i j : ℕ) where
  -- In every reachable state, two threads that have exclusive permissions over `front_exclusive` are
  -- one thread, also while the closure of `unlocked` runs without the mutex; and `front_locked` is
  -- set while a thread has them.
  pub front_exclusion :
      has_front (s.pc i) ≡ true
      → has_front (s.pc j) ≡ true
      → (i ≡ j) × ((exclusive s.world).front_locked ≡ true)
  front_exclusion a b = go (Reach-Inv r).front.permission
    where
      go :
          Permission (exclusive s.world) s.world.frames s.pc
          → (i ≡ j) × ((exclusive s.world).front_locked ≡ true)
      go (released l e n) = absurd (true-ne-false a (n i))
      go (held h k l hh un cu po asl) = (un i a ∙ sym (un j b), l)
      go (granted k t rest l e n po aw asl) = absurd (true-ne-false a (n i))

  -- In every reachable state, two threads that hold a guard of the mutex are one thread.
  lock_exclusion : holds_lock (s.pc i) ≡ true → holds_lock (s.pc j) ≡ true → i ≡ j
  lock_exclusion a b =
      let lock = (Reach-Inv r).lock in ground (arith, lock.locked i a, lock.locked j b)
