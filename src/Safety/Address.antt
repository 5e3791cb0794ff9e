-- ===== src/Safety/Address.antt =====
-- Which mutexes the calls on one queue of src/queue.rs get past `assert_mutex_good`.
use contention_queue.Prelude.{ℕ, ◌≡◌, ◌≢◌, arith}
use contention_queue.Interface.{Client}
use contention_queue.Poisoning.{value, panics}
use contention_queue.Queue.{assert_mutex_good}
use contention_queue.System.{System, Reach}
use contention_queue.Invariant.Moves.{Reach-Inv}

-- In every reachable state, the mutex that the threads use with the queue is accepted, and if some
-- call has stored its address, which is not null, then a mutex at any other address is refused.
one_mutex :
    {c : Client} {addr : ℕ} {s : System c} (b : ℕ)
    → Reach addr s
    → addr ≢ 0
    → b ≢ addr
    → s.world.cq.mutex_address ≢ 0
    → (assert_mutex_good s.world.cq.mutex_address addr ≡ value addr)
      × (assert_mutex_good s.world.cq.mutex_address b ≡ panics)
unfolding assert_mutex_good
one_mutex b r nz ne called = let known = (Reach-Inv r).address in (ground arith, ground arith)
