-- ===== src/Nested.antt =====
-- Threads that use a queue of src/queue.rs from the inside of its own callbacks. A number is an
-- activation: the code of a thread outside of every callback, or what one callback calls; a caller
-- does not move before what it has called is over.
pub mod Unserved
pub mod Hangs
use contention_queue.Prelude.{ℕ, ◌≡◌, ◌≢◌, Bool, true, false, Option, none, some, update}
use contention_queue.Interface.{Client, PanicOptions}
use contention_queue.World.{
  World, Pc, idle, guarded, calling, entering, waiting, running, unlocked, panicked,
}
use contention_queue.System.{System, Move, Reach, start, later, pick, init}

-- `caller j` is the activation whose callback is executing activation `j`.
pub record Nest (c : Client) : Type 0 where
  pub system : System c
  pub caller : ℕ → Option ℕ

module _ {c : Client} where
  -- In `task.process`, between two uses of the handle, or in the closure of `unlocked`.
  abbrev pub in_callback : Pc c → Bool
  in_callback (running _ _) = true
  in_callback (unlocked _ _) = true
  in_callback _ = false

  -- A use of the queue that has not got the front permission, nor a result.
  abbrev pub is_unserved : Pc c → Bool
  is_unserved idle = true
  is_unserved guarded = true
  is_unserved (calling _ _) = true
  is_unserved (entering _ _) = true
  is_unserved (waiting _) = true
  is_unserved panicked = true
  is_unserved _ = false

  -- A use of the queue that has not got the lock.
  abbrev pub is_kept_out : Pc c → Bool
  is_kept_out idle = true
  is_kept_out (calling _ _) = true
  is_kept_out panicked = true
  is_kept_out _ = false

  pub data Goes (addr : ℕ) (n : Nest c) : Nest c → Type 0 where
    moves :
        (i : ℕ) {w : World c} {p : Pc c}
        → ((j : ℕ) → n.caller j ≢ some i)
        → Move addr i n.system.world (n.system.pc i) w p
        → Goes addr n (record n { system = record { world = w; pc = update n.system.pc i p } })
    -- the callback of activation `i` begins to execute code that may use the queue
    enters :
        (i j : ℕ)
        → in_callback (n.system.pc i) ≡ true
        → ((k : ℕ) → n.caller k ≢ some i)
        → n.caller j ≡ none
        → n.system.pc j ≡ idle
        → Goes addr n (record n { caller = update n.caller j (some i) })
    -- that code is over
    leaves :
        (i j : ℕ)
        → n.caller j ≡ some i
        → n.system.pc j ≡ idle
        → Goes addr n (record n { caller = update n.caller j none })

  pub data Nested (addr : ℕ) : Nest c → Type 0 where
    begins :
        (f : c.FrontState) (m : c.MutexState) (options : PanicOptions)
        → Nested addr (record { system = init f m options; caller = λ _. none })
    goes : {n n' : Nest c} → Nested addr n → Goes addr n n' → Nested addr n'

  -- The states that follow a given one.
  pub data Course (addr : ℕ) (n : Nest c) : Nest c → Type 0 where
    here : Course addr n n
    next : {n' n″ : Nest c} → Course addr n n' → Goes addr n' n″ → Course addr n n″

-- However callbacks use the queue that calls them: the moves are those of threads that use the queue
-- outside of its callbacks only, so that a state reached so is one that such threads reach.
pub nested_reach : {c : Client} {addr : ℕ} {n : Nest c} → Nested addr n → Reach addr n.system
nested_reach (begins f m options) = start f m options
nested_reach (goes r (moves i alone m)) = later (nested_reach r) (pick i m)
nested_reach (goes r (enters i j inside alone free at)) = nested_reach r
nested_reach (goes r (leaves i j called at)) = nested_reach r

pub Nested-Course :
    {c : Client} {addr : ℕ} {n n' : Nest c} → Nested addr n → Course addr n n' → Nested addr n'
Nested-Course r here = r
Nested-Course r (next steps g) = goes (Nested-Course r steps) g

-- Threads that do not use the queue from the inside of its callbacks are a case of this.
pub Reach-Nested :
    {c : Client} {addr : ℕ} {s : System c}
    → Reach addr s
    → Nested addr (record { system = s; caller = λ _. none })
Reach-Nested (start f m options) = begins f m options
Reach-Nested (later r (pick i m)) = goes (Reach-Nested r) (moves i (λ j e. cc) m)
