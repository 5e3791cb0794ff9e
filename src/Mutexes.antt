-- ===== src/Mutexes.antt =====
-- Threads that use one queue of src/queue.rs with several mutexes, against the promise of
-- `assert_mutex_good`. Each call of `process` passes a guard of the mutex that it names, which the
-- code leaves to its callers; Mixed has the calls that do not.
pub mod Outside
pub mod Seen
pub mod Replaced
pub mod Mixed
use contention_queue.Prelude.{
  ℕ, ◌≡◌, ◌≢◌, Bool, true, false, none, Option, ◌==◌, if◌then◌else◌, update,
}
use contention_queue.Interface.{Client, PanicOptions}
use contention_queue.Poisoning.{Mutex}
use contention_queue.TaskState.{TaskState}
use contention_queue.Queue.{ContentionQueue, new_with_options}
use contention_queue.World.{World, Pc, idle, guarded, calling, entering, panicked}
use contention_queue.System.{System, Move}

-- The mutexes by their addresses, and the mutex that each thread uses in its current call.
pub record Threads (c : Client) : Type 0 where
  pub cq : ContentionQueue c
  pub mutexes : ℕ → Mutex c.MutexState
  pub frames : ℕ → Option TaskState
  pub pc : ℕ → Pc c
  pub uses : ℕ → ℕ

module _ {c : Client} where
  -- The shared state as the users of the mutex at address `a` see it.
  abbrev pub view : ℕ → Threads c → World c
  view a s = record { cq = s.cq; mutex = s.mutexes a; frames = s.frames }

  -- The state after thread `i` has moved to `w` and `p`, with its own mutex.
  abbrev pub put : ℕ → World c → Pc c → Threads c → Threads c
  put i w p s = record {
    cq = w.cq;
    mutexes = update s.mutexes (s.uses i) w.mutex;
    frames = w.frames;
    pc = update s.pc i p;
    uses = s.uses;
  }

  pub data Turn (s : Threads c) : Threads c → Type 0 where
    -- a thread in client code turns to another mutex; no reference is null
    turns : (i a : ℕ) → s.pc i ≡ idle → a ≢ 0 → Turn s (record s { uses = update s.uses i a })
    moves :
        (i : ℕ) {w : World c} {p : Pc c}
        → Move (s.uses i) i (view (s.uses i) s) (s.pc i) w p
        → Turn s (put i w p s)

  pub data Turns : Threads c → Type 0 where
    begin :
        (f : c.FrontState) (m : ℕ → c.MutexState) (options : PanicOptions) (uses : ℕ → ℕ)
        → ((j : ℕ) → uses j ≢ 0)
        → Turns (record {
          cq = new_with_options f options;
          mutexes = λ a. record { holder = none; is_poisoned = false; inner = m a };
          frames = λ _. none;
          pc = λ _. idle;
          uses = uses;
        })
    goes : {s t : Threads c} → Turns s → Turn s t → Turns t

  -- The users of the mutex at address `a`, with every other thread left out.
  abbrev pub seen : ℕ → Threads c → System c
  seen a s = record { world = view a s; pc = λ j. if s.uses j == a then s.pc j else idle }

  -- A thread that has not got past `assert_mutex_good`.
  abbrev pub is_outside : Pc c → Bool
  is_outside idle = true
  is_outside guarded = true
  is_outside (calling _ _) = true
  is_outside (entering _ _) = true
  is_outside panicked = true
  is_outside _ = false
