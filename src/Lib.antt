-- ===== src/Lib.antt =====
-- A model of the crate contention-queue (src/*.rs), and what holds of it for every interleaving of
-- the threads that use one queue.
--
-- The program. A `ContentionQueue` lets many threads submit values under one `std::sync::Mutex`,
-- while one thread at a time, the one with the front permission, runs its callback on its value. The
-- callback has a `QueueHandle`, through which it can take over the values of the threads that wait
-- behind it, and through which it can release the mutex for a while. A thread whose turn has not come
-- pushes a task with a reference to the `TaskState` in its own stack frame, and sleeps on the
-- condition variable there; the thread before it sets its front bit and notifies it.
--
-- The files, with the code that each models:
--   Interface   src/interface.rs: `PanicOptions`, `ProcessResult`, and a callback as a tree of its
--               uses of the handle, of the front state and of the value in the mutex, with `again`
--               where a loop starts its next round
--   Poisoning   src/poisoning.rs, and what the crate uses of `Mutex` and `MutexGuard`
--   TaskState   src/task_state.rs: the byte (below 256), the loop of `wait_until_at_front`, the wakes
--   Task        src/task.rs: `Task`, `ErasedTask`; `erase` is `ErasedTask::new`
--   QueueState  src/queue_state.rs
--   Handle      src/queue_handle.rs: `peek`, `pop` and the poison flag
--   Queue       src/queue.rs: the struct, `assert_mutex_good`, `try_acquire_front_fast`, and the push
--               and the pop of `try_wait_until_at_front`
--   World       the shared state of the threads, and the points at which a thread can stand
--   Process     src/queue.rs: `lock_and_process`, `process`, `process_unchecked`,
--               `try_process_unchecked`, cut where a thread waits for the lock or for its turn;
--               `resume` is what follows the wait, `settle` and `fail` are the `Ok` and the `Err`
--               branch of `process_unchecked`
--   Run         the call of `task.process`, one use of the handle at a time; `unlock` and `re_lock`
--               are `ReLock::new` and `ReLock::drop` of `unlocked`
--   System      the moves of the threads, and the states that they can reach
--   Shape, Invariant   the invariant of these states, for the lock, the queue and the permission
--   Safety, Order      the theorems about all reachable states
--   Solo               a call that no other thread disturbs, against an evaluation of its callback
--   Mutexes            the same threads with several mutexes, of which one is let through, with one
--                      mutex in place of another, or with a guard of another mutex (Mutexes.Mixed)
--   Finish             how the threads before a waiting one come to their ends, and who is next
--   Ending             the order in which a call goes on, and when all calls come to their ends
--   Desk               the abstract view: a desk with one thread at the front, and a line
--   Slots              the `MaybeUninit` slots of src/queue_handle.rs: `re_lock_new` and `re_lock_drop`
--               are `ReLock::new` and `ReLock::drop`, and a use of an empty slot gives `none`
--   Nested             calls from the inside of a callback of the same queue
--   Schedule, Scenarios   an executable scheduler, and three threads that it runs
--
-- How the code is read. Threads are numbers. A move is what a thread does from one point where
-- others can interfere to the next. The address of the mutex is a parameter `addr` of the system. A
-- reference to a `TaskState` is the number of the thread whose frame holds it; a frame that is
-- `none` is dead, and a use of it, like `unwrap_unchecked` on an empty queue, gives `none`. A panic
-- is a value. `Condvar::wait` may return without a notification. A `Mutex::lock` returns only while
-- nobody holds the lock. A call by the thread that holds it does not return: it never ends, or it
-- panics (`lock_panics`, and Safety.Escaped for the `Err` branch), which `std` leaves open. A call
-- of `is_queue_poisoned` or `clear_queue_poison` that waits at its lock, or panics there, has only
-- stored the address (`asserts`); one that returns is a move of its own after that. A guard that is
-- dropped while its thread unwinds poisons the mutex. Client code may lock, write, poison and clear
-- the mutex at any time, and may call in any order. What a callback executes that uses the same
-- queue is a number of its own, which its caller waits for (Nested); and a thread that holds guards
-- of several mutexes at once is as many numbers (Mutexes), whose moves may be mixed at will. The
-- lifetime of a value that a callback has popped is the rest of that callback (Safety.Lent). There
-- is no fuel: loops are the moves themselves, and a schedule is a list. A loop in a callback, like
-- one that pops until nothing is left, may have any number of rounds: at `again` any callback may
-- follow, and `again` once more, for ever. What holds of all reachable states holds of such callbacks
-- too; where a theorem says that calls end, it leaves these rounds out and says so. The closure of
-- `unlocked` may write the front state, and returns an `Output` of the client's. `process` takes a
-- mutex and a guard, and nothing in the code ties the two together: except in Mutexes.Mixed, each call
-- of `process` is given a guard of the mutex that it names, which is a condition of all theorems
-- about the moves of the threads.
--
-- Not modelled: lifetimes as types; the constructors and the marker impls of
-- src/externally_synchronized.rs, which have no behaviour of their own; memory exhaustion; panics of
-- `std` in the push, in the wait or in the lock of `ReLock`, which `AbortIfNotAtFront` and the
-- destructor of `ReLock` turn into an abort of the process; what becomes of a call of `process` with a
-- guard of another mutex after its first wait; the `Debug` impls; a queue that is itself moved or
-- dropped.
mod Prelude
pub mod Interface
pub mod Poisoning
pub mod TaskState
pub mod Task
pub mod QueueState
pub mod Handle
pub mod Queue
pub mod World
pub mod Process
pub mod Run
pub mod System
pub mod Shape
pub mod Invariant
pub mod Safety
pub mod Order
pub mod Solo
pub mod Mutexes
pub mod Finish
pub mod Desk
pub mod Slots
pub mod Nested
pub mod Ending
mod Schedule
mod Scenarios
