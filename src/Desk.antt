-- ===== src/Desk.antt =====
-- What a queue promises its callers, without the lock, the wakeups and the state bytes: a desk at
-- which one thread is served at a time, with a line of threads that wait.
pub mod Keeps
pub mod Serves
pub mod Turns
pub mod Refine
use contention_queue.Prelude.{ℕ, ◌≡◌, true, false, Bool, Option, none, some, List, [], ◌∷◌, ◌++◌}
use contention_queue.Interface.{Client, Callback}
use contention_queue.Task.{ErasedTask}
use contention_queue.QueueState.{MutexExclusive}
use contention_queue.World.{World, Pc, exclusive, panicked}
use contention_queue.Poisoning.{Outcome, value, panics}
use contention_queue.Handle
use contention_queue.Handle.{QueueHandle}
use contention_queue.Process.{process}
use contention_queue.System.{Move, enters, resumes, runs, settles, fails}
use contention_queue.Invariant.{has_front}

-- A thread, with its value until some thread takes it up.
abbrev pub Caller : Type 0 → Type 0
Caller V = ℕ × Option V

pub record Desk (V : Type 0) : Type 0 where
  pub front : Option (Caller V)
  pub line : List (Caller V)

-- The first value in a line is taken; its thread stays in the line.
pub data TakesFirst {V : Type 0} : List (Caller V) → V → List (Caller V) → Type 0 where
  at_once : {i : ℕ} {v : V} {l : List (Caller V)} → TakesFirst ((i, some v) ∷ l) v ((i, none) ∷ l)
  further :
      {i : ℕ} {v : V} {l m : List (Caller V)}
      → TakesFirst l v m
      → TakesFirst ((i, none) ∷ l) v ((i, none) ∷ m)

abbrev pub AllTaken : {V : Type 0} → List (Caller V) → Type 0
AllTaken [] = Unit
AllTaken ((i, o) ∷ l) = (o ≡ none) × AllTaken l

-- What a thread does at the desk.
pub data Act (V : Type 0) : Type 0 where
  nothing : Act V
  comes : V → Act V
  starts : Act V
  pops : Option V → Act V
  leaves : Act V

-- What each act of thread `i` does to the desk.
pub data Serve {V : Type 0} (i : ℕ) : Act V → Desk V → Desk V → Type 0 where
  idles : {d : Desk V} → Serve i Act.nothing d d
  -- it comes to a free desk, and its value is taken up at once
  walks_up :
      {v : V}
      → Serve i
          (Act.comes v)
          (record { front = none; line = [] })
          (record { front = some (i, none); line = [] })
  -- it comes to a taken desk, and joins the end of the line
  joins :
      {v : V} {f : Caller V} {l : List (Caller V)}
      → Serve i
          (Act.comes v)
          (record { front = some f; line = l })
          (record { front = some f; line = l ++ (i, some v) ∷ [] })
  -- it has come to the front, and takes up what is left of its own value
  takes_up :
      {o : Option V} {l : List (Caller V)}
      → Serve i Act.starts
          (record { front = some (i, o); line = l })
          (record { front = some (i, none); line = l })
  -- at the front, it takes the next value of the line, or finds that none is left
  merges :
      {v : V} {l m : List (Caller V)}
      → TakesFirst l v m
      → Serve i
          (Act.pops (some v))
          (record { front = some (i, none); line = l })
          (record { front = some (i, none); line = m })
  finds_none :
      {l : List (Caller V)}
      → AllTaken l
      → Serve i
          (Act.pops none)
          (record { front = some (i, none); line = l })
          (record { front = some (i, none); line = l })
  -- it leaves the front, and the next one comes to the front
  leaves_last :
      Serve i Act.leaves
        (record { front = some (i, none); line = [] })
        (record { front = none; line = [] })
  leaves_to :
      {f : Caller V} {l : List (Caller V)}
      → Serve i Act.leaves
          (record { front = some (i, none); line = f ∷ l })
          (record { front = some f; line = l })

abbrev pub popped : {V : Type 0} → Outcome (Option V) → Act V
popped (value o) = Act.pops o
popped panics = Act.nothing

-- What a move of a thread is at the desk.
module _ {c : Client} where
  -- A call that is refused does not come.
  abbrev pub arrives : c.Value → Pc c → Act c.Value
  arrives v panicked = Act.nothing
  arrives v _ = Act.comes v

  abbrev pub uses : World c → QueueHandle → Callback c → Act c.Value
  uses w h (Callback.pop k) = popped (Handle.pop h (exclusive w)).0
  uses w h _ = Act.nothing

  abbrev pub act : {addr i : ℕ} {w w' : World c} {p p' : Pc c} → Move addr i w p w' p' → Act c.Value
  act {addr} {i} {w} (enters {v} {task}) = arrives v (process addr i w v task).1
  act (resumes free live awake turn e) = Act.starts
  act {w = w} (runs {h} {k}) = uses w h k
  act (settles e) = Act.leaves
  act (fails free e) = Act.leaves
  act _ = Act.nothing

abbrev pub entry : {V : Type 0} → ErasedTask V → Caller V
entry t = (t.state, t.value)

abbrev pub entries : {V : Type 0} → List (ErasedTask V) → List (Caller V)
entries [] = []
entries (t ∷ q) = entry t ∷ entries q

-- The desk that a queue and the places of its threads stand for.
pub data Stands {c : Client} (q : MutexExclusive c.Value) (pc : ℕ → Pc c)
    : Desk c.Value → Type 0 where
  vacant : q.front_locked ≡ false → q.queue ≡ [] → Stands q pc (record { front = none; line = [] })
  serving :
      (i : ℕ)
      → has_front (pc i) ≡ true
      → Stands q pc (record { front = some (i, none); line = entries q.queue })
  -- the thread of the front task has been told to come
  called_up :
      (t : ErasedTask c.Value) (rest : List (ErasedTask c.Value))
      → q.front_locked ≡ true
      → q.queue ≡ t ∷ rest
      → ((j : ℕ) → has_front (pc j) ≡ false)
      → Stands q pc (record { front = some (entry t); line = entries rest })
