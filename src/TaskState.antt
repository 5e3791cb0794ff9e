-- ===== src/TaskState.antt =====
-- src/task_state.rs: the state byte of a queued task and its condition variable.
pub mod Bits
pub mod Table
use Prim.Native.Nat.{bit_and, bit_or}
use contention_queue.Prelude.{ℕ, Bool, true, false, not, Option, none, some, ◌==◌, if◌then◌else◌}

abbrev pub front_bit : ℕ
front_bit = 1

abbrev pub panic_bit : ℕ
panic_bit = 2

-- `std::sync::Condvar`, with the one thread that can wait on it: whether it is blocked in `wait`.
pub record Condvar : Type 0 where
  pub blocked : Bool

pub record TaskState : Type 0 where
  pub condvar : Condvar
  pub state : ℕ  -- u8

unfoldable pub new : TaskState
new = record { condvar = record { blocked = false }; state = 0 }

-- `condvar.wait(guard)`, up to where the thread sleeps.
unfoldable pub wait : TaskState → TaskState
wait s = record s { condvar = record { blocked = true } }

-- `condvar.notify_one()`; it is lost if nobody is blocked.
unfoldable pub notify_one : TaskState → TaskState
notify_one s = record s { condvar = record { blocked = false } }

-- The test of the loop of `wait_until_at_front` after `wait` has returned: `none` is another round,
-- `some` the result, whether the panic bit is set.
unfoldable pub wait_until_at_front : TaskState → Option Bool
wait_until_at_front s =
    if bit_and s.state front_bit == 0 then none else some (not (bit_and s.state panic_bit == 0))

unfoldable pub wake_front_task : TaskState → TaskState
unfolding notify_one
wake_front_task s = notify_one (record s { state = bit_or s.state front_bit })

unfoldable pub wake_front_task_panicking : TaskState → TaskState
unfolding notify_one
wake_front_task_panicking s =
    notify_one (record s { state = bit_or s.state (bit_or panic_bit front_bit) })
