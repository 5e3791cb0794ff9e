-- ===== src/Order.antt =====
-- The order in which values enter the queue of src/queue.rs and leave it.
pub mod Flow
pub mod History
pub mod Drain
pub mod Change
pub mod Own
pub mod Asked
pub mod Kept
pub mod Fates
pub mod Poison
use contention_queue.Prelude.{ℕ, Option, none, some, List, [], ◌∷◌}
use contention_queue.Interface.{Client, Callback}
use contention_queue.Poisoning.{Outcome, value, panics}
use contention_queue.Task.{ErasedTask}
use contention_queue.Handle
use contention_queue.World.{
  World, exclusive, Pc, idle, guarded, calling, entering, waiting, running, unlocked, settling,
  failing, returned, panicked,
}
use contention_queue.Process.{process}
use contention_queue.System.{Move, enters, resumes, runs}

abbrev pub listed {ℓ} : {A : Type ℓ} → Option A → List A
listed none = []
listed (some a) = a ∷ []

-- The values that wait in the queue, front first.
abbrev pub values {ℓ} : {V : Type ℓ} → List (ErasedTask V) → List V
values [] = []
values (t ∷ q) = elim t.value [ none ↦ values q | some v ↦ v ∷ values q ]

abbrev pub first {ℓ} : {V : Type ℓ} → List (ErasedTask V) → List V
first [] = []
first (t ∷ q) = listed t.value

abbrev pub answered {ℓ} : {V : Type ℓ} → Outcome (Option V) → List V
answered panics = []
answered (value o) = listed o

module _ {c : Client} where
  -- A call of `process` submits its value unless the mutex is refused.
  abbrev pub submitted : c.Value → Pc c → List c.Value
  submitted v panicked = []
  submitted v _ = v ∷ []

  -- A call that need not wait takes its own value at once.
  abbrev pub taken : c.Value → Pc c → List c.Value
  taken v panicked = []
  taken v (waiting _) = []
  taken v _ = v ∷ []

  -- What a use of the handle pops.
  abbrev pub popped : Handle.QueueHandle → World c → Callback c → List c.Value
  popped h w (Callback.pop k) = answered (Handle.pop h (exclusive w)).0
  popped h w _ = []

  -- The value that a move submits to the queue.
  abbrev pub submits :
      {addr i : ℕ} {w w' : World c} {p p' : Pc c} → Move addr i w p w' p' → List c.Value
  submits {addr} {i} {w} (enters {v} {task}) = submitted v (process addr i w v task).1
  submits _ = []

  -- The value that a move takes up: at once, after the wait, or through the handle of another task.
  abbrev pub takes :
      {addr i : ℕ} {w w' : World c} {p p' : Pc c} → Move addr i w p w' p' → List c.Value
  takes {addr} {i} {w} (enters {v} {task}) = taken v (process addr i w v task).1
  takes {w = w} (resumes free live awake turn e) = first (exclusive w).queue
  takes {w = w} (runs {h} {k}) = popped h w k
  takes _ = []
