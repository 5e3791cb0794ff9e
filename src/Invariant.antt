-- ===== src/Invariant.antt =====
-- What holds of a `ContentionQueue` of src/queue.rs between two moves of its threads: who holds the
-- lock, who holds the front permission, and that the queue lists the waiting threads.
pub mod Lock
pub mod Front
pub mod Effect
pub mod Moves
use contention_queue.Prelude.{
  ℕ, ◌≡◌, ◌⊎◌, Bool, true, false, Option, none, some, List, [], ◌∷◌, ◌++◌, update,
}
use contention_queue.Interface.{Client}
use contention_queue.TaskState.{TaskState, wait_until_at_front}
use contention_queue.Task.{ErasedTask}
use contention_queue.QueueState.{MutexExclusive}
use contention_queue.Shape.{
  owners, owns, Distinct, is_live, Asleep, Awake, AllAsleep, HasValue, Popped,
}
use contention_queue.World.{
  Pc, idle, guarded, calling, entering, waiting, running, unlocked, settling, failing, returned,
  panicked,
}

module _ {c : Client} where
  -- The threads that hold a guard and will drop or lend it.
  abbrev pub holds_lock : Pc c → Bool
  holds_lock guarded = true
  holds_lock (entering _ _) = true
  holds_lock (running _ _) = true
  holds_lock (settling _) = true
  holds_lock (returned _) = true
  holds_lock _ = false

  -- The threads with exclusive permissions over `front_exclusive`.
  abbrev pub has_front : Pc c → Bool
  has_front (running _ _) = true
  has_front (unlocked _ _) = true
  has_front (settling _) = true
  has_front failing = true
  has_front _ = false

  abbrev pub is_waiting : Pc c → Bool
  is_waiting (waiting _) = true
  is_waiting _ = false

  -- A handle's index is the number of tasks that have lost their values.
  abbrev pub Cursor : Pc c → ℕ → Type 0
  Cursor (running h _) k = h.next_idx ≡ k
  Cursor (unlocked h _) k = h.next_idx ≡ k
  Cursor _ k = Unit

  pub record LockInv (holder : Option ℕ) (pc : ℕ → Pc c) : Type 0 where
    pub locked : (j : ℕ) → holds_lock (pc j) ≡ true → holder ≡ some j
    pub locker : (j : ℕ) → holder ≡ some j → (holds_lock (pc j) ≡ true) ⊎ (pc j ≡ failing)

  -- Where the permission is: with nobody, with one thread, or granted to the front task's thread,
  -- which is about to wake up.
  pub data Permission (q : MutexExclusive c.Value) (f : ℕ → Option TaskState) (pc : ℕ → Pc c)
      : Type 0 where
    released :
        q.front_locked ≡ false
        → q.queue ≡ []
        → ((j : ℕ) → has_front (pc j) ≡ false)
        → Permission q f pc
    held :
        (i k : ℕ)
        → q.front_locked ≡ true
        → has_front (pc i) ≡ true
        → ((j : ℕ) → has_front (pc j) ≡ true → j ≡ i)
        → Cursor (pc i) k
        → Popped k q.queue
        → AllAsleep f (owners q.queue)
        → Permission q f pc
    granted :
        (k : ℕ) (t : ErasedTask c.Value) (rest : List (ErasedTask c.Value))
        → q.front_locked ≡ true
        → q.queue ≡ t ∷ rest
        → ((j : ℕ) → has_front (pc j) ≡ false)
        → Popped k (t ∷ rest)
        → Awake (f t.state)
        → AllAsleep f (owners rest)
        → Permission q f pc

  pub record FrontInv (q : MutexExclusive c.Value) (f : ℕ → Option TaskState) (pc : ℕ → Pc c)
      : Type 0 where
    pub distinct : Distinct (owners q.queue)
    pub queued : (j : ℕ) → owns j (owners q.queue) ≡ is_waiting (pc j)
    pub live : (j : ℕ) → is_live (f j) ≡ is_waiting (pc j)
    pub permission : Permission q f pc
