-- ===== src/Finish.antt =====
-- That a thread that waits in `wait_until_at_front` of src/task_state.rs can always get on: the
-- threads before it can finish their callbacks, one after the other.
pub mod Moves
pub mod Ends
pub mod Place
pub mod Barging
pub mod Frees
pub mod Turn
use contention_queue.Prelude.{
  ℕ, suc, ◌≡◌, ◌≢◌, Bool, true, Option, some, List, [], ◌∷◌, ◌==◌, if◌then◌else◌,
}
use contention_queue.Interface.{Client, Callback, ProcessTask}
use contention_queue.World.{Pc, calling, entering, waiting, running, unlocked, failing, exclusive}
use contention_queue.System.{System, Reach, Steps}
use contention_queue.Shape.{owners}
use contention_queue.Invariant.{is_waiting}

-- A callback that neither panics nor loops, whatever it is told.
abbrev pub Finishes : {c : Client} → Callback c → Type 0
Finishes {c} (Callback.return r) = Unit
Finishes {c} Callback.panic = ⊥
Finishes {c} Callback.again = ⊥
Finishes {c} (Callback.peek k) = (o : Option c.Value) → Finishes (k o)
Finishes {c} (Callback.pop k) = (o : Option c.Value) → Finishes (k o)
Finishes {c} (Callback.mutex_state k) = (m : c.MutexState) → Finishes (k m)
Finishes {c} (Callback.set_mutex_state m k) = Finishes k
Finishes {c} (Callback.front_state k) = (f : c.FrontState) → Finishes (k f)
Finishes {c} (Callback.set_front_state f k) = Finishes k
Finishes {c} (Callback.unlocked k) = (o : Option c.Output) → Finishes (k o)
Finishes {c} (Callback.is_queue_poisoned k) = (b : Bool) → Finishes (k b)
Finishes {c} (Callback.clear_queue_poison k) = Finishes k

-- The tasks in front of the one of thread `i`.
abbrev pub ahead : ℕ → List ℕ → ℕ
ahead i [] = 0
ahead i (x ∷ xs) = if x == i then 0 else suc (ahead i xs)

module _ {c : Client} where
  abbrev pub AlwaysReturns : ProcessTask c → Type 0
  AlwaysReturns task = (v : c.Value) → Finishes (task v)

  -- What is left of a thread's call does not make its callback panic or loop.
  abbrev pub Calm : Pc c → Type 0
  Calm (calling v task) = AlwaysReturns task
  Calm (entering v task) = AlwaysReturns task
  Calm (waiting task) = AlwaysReturns task
  Calm (running h k) = Finishes k
  Calm (unlocked h k) = (o : Option c.Output) → Finishes (k o)
  Calm _ = Unit

  -- Thread `i` waits behind `n` others, no callback will panic or loop, and no lock
  -- has been lost to a panic.
  pub record Line (addr i n : ℕ) (s : System c) : Type 0 where
    pub reach : Reach addr s
    pub calm : (j : ℕ) → Calm (s.pc j)
    pub sound : (j : ℕ) → s.world.mutex.holder ≡ some j → s.pc j ≢ failing
    pub waits : is_waiting (s.pc i) ≡ true
    pub place : ahead i (owners (exclusive s.world).queue) ≡ n

  -- Some moves lead from `s` to a state with the property `Q`, and leave thread `i` where it was.
  pub record Gets (addr i n : ℕ) (s : System c) (Q : System c → Type 0) : Type 0 where
    pub last : System c
    pub steps : Steps addr s last
    pub line : Line addr i n last
    pub meets : Q last
