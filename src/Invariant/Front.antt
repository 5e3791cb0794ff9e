-- ===== src/Invariant/Front.antt =====
-- What a move does to the front permission, the queue and the frames.
pub mod Moved
pub mod Waiters
pub mod Keeps
pub mod Transfer
pub mod Owner
pub mod Effects
use contention_queue.Prelude.{
  ℕ, ◌≡◌, ◌≢◌, true, false, Option, none, some, List, [], ◌∷◌, ◌++◌, update,
}
use contention_queue.Interface.{Client}
use contention_queue.TaskState.{TaskState, wait_until_at_front}
use contention_queue.Task.{ErasedTask}
use contention_queue.QueueState.{MutexExclusive}
use contention_queue.Shape.{owners, Asleep, Awake, HasValue, NoValue, Popped}
use contention_queue.World.{Pc}
use contention_queue.Invariant.{has_front, is_waiting, Cursor}

-- A thread outside the queue, without the permission.
abbrev pub IsOutside : {c : Client} → Pc c → Type 0
IsOutside p = (has_front p ≡ false) × (is_waiting p ≡ false)

-- Thread `i` goes from `p` to `p'`, the state behind the mutex from `q` to `q'`, and the frames from
-- `f` to `f'`.
pub data FrontEffect {c : Client} (i : ℕ) (q : MutexExclusive c.Value) (f : ℕ → Option TaskState)
    (p : Pc c) (q' : MutexExclusive c.Value) (f' : ℕ → Option TaskState) (p' : Pc c) : Type 0 where
  -- The permission stays where it is; only a thread that has it changes the tasks.
  stays :
      q'.front_locked ≡ q.front_locked
      → owners q'.queue ≡ owners q.queue
      → f' ≡ f
      → has_front p' ≡ has_front p
      → is_waiting p' ≡ is_waiting p
      → (has_front p ≡ false → q'.queue ≡ q.queue)
      → ((k : ℕ) → Cursor p k → Popped k q.queue → (k' : ℕ) × Cursor p' k' × Popped k' q'.queue)
      → FrontEffect i q f p q' f' p'
  -- A waiting thread blocks or unblocks.
  stirs :
      (s s' : TaskState)
      → q' ≡ q
      → f i ≡ some s
      → f' ≡ update f i (some s')
      → s'.state ≡ s.state
      → (Awake (some s) → Awake (some s'))
      → is_waiting p ≡ true
      → p' ≡ p
      → FrontEffect i q f p q' f' p'
  acquires :
      q.front_locked ≡ false
      → q'.front_locked ≡ true
      → q'.queue ≡ q.queue
      → f' ≡ f
      → IsOutside p
      → has_front p' ≡ true
      → is_waiting p' ≡ false
      → Cursor p' 0
      → FrontEffect i q f p q' f' p'
  pushes :
      (t : ErasedTask c.Value) (s : TaskState)
      → q.front_locked ≡ true
      → q'.front_locked ≡ true
      → q'.queue ≡ q.queue ++ t ∷ []
      → t.state ≡ i
      → HasValue t.value
      → f' ≡ update f i (some s)
      → s.state ≡ 0
      → IsOutside p
      → has_front p' ≡ false
      → is_waiting p' ≡ true
      → FrontEffect i q f p q' f' p'
  resumes :
      (s : TaskState) (t : ErasedTask c.Value) (rest : List (ErasedTask c.Value))
      → f i ≡ some s
      → wait_until_at_front s ≢ none
      → q'.front_locked ≡ q.front_locked
      → q.queue ≡ t ∷ rest
      → q'.queue ≡ rest
      → f' ≡ update f i none
      → is_waiting p ≡ true
      → has_front p' ≡ true
      → is_waiting p' ≡ false
      → (HasValue t.value → Cursor p' 0)
      → ((k : ℕ) → NoValue t.value → Cursor p' k)
      → FrontEffect i q f p q' f' p'
  releases :
      q.queue ≡ []
      → q'.queue ≡ []
      → q'.front_locked ≡ false
      → f' ≡ f
      → has_front p ≡ true
      → IsOutside p'
      → FrontEffect i q f p q' f' p'
  grants :
      (s s' : TaskState) (t : ErasedTask c.Value) (rest : List (ErasedTask c.Value))
      → q.queue ≡ t ∷ rest
      → q'.queue ≡ q.queue
      → q'.front_locked ≡ q.front_locked
      → f t.state ≡ some s
      → f' ≡ update f t.state (some s')
      → (Asleep (some s) → Awake (some s'))
      → has_front p ≡ true
      → IsOutside p'
      → FrontEffect i q f p q' f' p'
