-- ===== src/TaskState/Table.antt =====
-- The state byte of src/task_state.rs at every value of a `u8`.
use Prim.Native.Nat.{bit_and, bit_or}
use contention_queue.Prelude.{
  ℕ, ◌≡◌, refl, ◌<◌, Bool, true, false, not, ◌&&◌, some, ◌==◌, passes_below, passes_below_lem,
  arith,
}
use contention_queue.TaskState.{
  TaskState, front_bit, panic_bit, wait_until_at_front, wake_front_task, wake_front_task_panicking,
}

-- The panic bit of a byte.
abbrev pub has_panicked : ℕ → Bool
has_panicked n = not (bit_and n panic_bit == 0)

-- What `wake_front_task` makes of a byte: the front bit is set, the panic bit is as it was.
abbrev sets_front : ℕ → Bool
sets_front n =
    let after = bit_or n front_bit in
    not (bit_and after front_bit == 0) && (bit_and after panic_bit == bit_and n panic_bit)

-- What `wake_front_task_panicking` makes of a byte: both bits are set.
abbrev sets_both : ℕ → Bool
sets_both n =
    let after = bit_or n (bit_or panic_bit front_bit) in
    not (bit_and after front_bit == 0) && not (bit_and after panic_bit == 0)

front_table : passes_below sets_front 256 ≡ true
unfolding passes_below
front_table = refl

both_table : passes_below sets_both 256 ≡ true
unfolding passes_below
both_table = refl

-- A thread with any state byte that is woken by `wake_front_task` leaves its loop with the panic bit
-- that its byte had, one woken by `wake_front_task_panicking` leaves it with the panic bit set, and
-- neither stays blocked.
pub wake-wait :
    (s : TaskState)
    → s.state < 256
    → (wait_until_at_front (wake_front_task s) ≡ some (has_panicked s.state))
      × (wait_until_at_front (wake_front_task_panicking s) ≡ some true)
      × ((wake_front_task s).condvar.blocked ≡ false)
      × ((wake_front_task_panicking s).condvar.blocked ≡ false)
unfolding wait_until_at_front wake_front_task wake_front_task_panicking
wake-wait s lt =
    let front = passes_below_lem sets_front front_table lt in
    let both = passes_below_lem sets_both both_table lt in (ground arith, ground arith, refl, refl)
