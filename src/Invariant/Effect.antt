-- ===== src/Invariant/Effect.antt =====
-- What a move of thread `i` does to the lock, to the front permission, and to the stored address of
-- the mutex.
pub mod Calls
pub mod Turns
pub mod Waits
pub mod Outside
use contention_queue.Prelude.{ℕ, ◌≡◌, ◌⊎◌}
use contention_queue.Interface.{Client}
use contention_queue.World.{World, exclusive, Pc}
use contention_queue.Invariant.Lock.{LockEffect}
use contention_queue.Invariant.Front.{FrontEffect}

pub record Effect {c : Client} (addr i : ℕ) (w : World c) (p : Pc c) (w' : World c) (p' : Pc c)
    : Type 0 where
  pub lock : LockEffect i w.mutex.holder p w'.mutex.holder p'
  pub front : FrontEffect i (exclusive w) w.frames p (exclusive w') w'.frames p'
  pub address : (w'.cq.mutex_address ≡ w.cq.mutex_address) ⊎ (w'.cq.mutex_address ≡ addr)
