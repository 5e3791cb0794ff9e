-- ===== src/Ending.antt =====
-- That the calls of src/queue.rs come to an end: what is a move that goes on with a call, and what
-- such a move leaves to be done.
pub mod Depth
pub mod Goes
pub mod Many
pub mod Terminates
pub mod Rest
pub mod Calm
pub mod Served
use contention_queue.Prelude.{ℕ, ◌≡◌, ◌<◌, ◌⊎◌, Option, Bool, update}
use contention_queue.Interface.{Client, Callback}
use contention_queue.World.{
  World, Pc, idle, guarded, calling, entering, waiting, running, unlocked, settling, failing,
  returned, panicked,
}
use contention_queue.System.{
  System, Move, client_lock, client_write, client_unlock, client_panic, client_clear, calls,
  passes_guard, locks, lock_panics, enters, wakes_spuriously, waits_again, resumes, runs, re_locks,
  settles, fails, drops, gives_back, catches, asserts, asserts_unlocked, asks, clears,
  asks_unlocked, clears_unlocked, refused, repeats, writes_unlocked,
}

module _ {c : Client} where
  -- A move that neither begins a call or another use of the mutex nor is a spurious wakeup.
  abbrev pub GoesOn : {addr i : ℕ} {w w' : World c} {p p' : Pc c} → Move addr i w p w' p' → Type 0
  GoesOn (client_lock free) = ⊥
  GoesOn (client_write m) = ⊥
  GoesOn client_clear = ⊥
  GoesOn (calls v task) = ⊥
  GoesOn (passes_guard v task) = ⊥
  GoesOn (wakes_spuriously live) = ⊥
  GoesOn (asserts e) = ⊥
  GoesOn (asserts_unlocked e) = ⊥
  GoesOn (asks free e) = ⊥
  GoesOn (asks_unlocked free e) = ⊥
  GoesOn (clears free e) = ⊥
  GoesOn (clears_unlocked free e) = ⊥
  GoesOn (refused e) = ⊥
  GoesOn (writes_unlocked f) = ⊥
  GoesOn _ = Unit

  -- Not at the next round of a loop.
  abbrev pub InTree : Callback c → Type 0
  InTree Callback.again = ⊥
  InTree _ = Unit

  -- A move that goes on with a call, but is not another round of a loop in a callback.
  abbrev pub Advances : {addr i : ℕ} {w w' : World c} {p p' : Pc c} → Move addr i w p w' p' → Type 0
  Advances (repeats k) = ⊥
  Advances (runs {h} {k}) = InTree k
  Advances m = GoesOn m

  -- What one use of the handle may leave of a callback.
  abbrev pub Follows : Callback c → Callback c → Type 0
  Follows k' (Callback.peek k) = (o : Option c.Value) × (k' ≡ k o)
  Follows k' (Callback.pop k) = (o : Option c.Value) × (k' ≡ k o)
  Follows k' (Callback.mutex_state k) = (m : c.MutexState) × (k' ≡ k m)
  Follows k' (Callback.set_mutex_state m k) = k' ≡ k
  Follows k' (Callback.front_state k) = (f : c.FrontState) × (k' ≡ k f)
  Follows k' (Callback.set_front_state f k) = k' ≡ k
  Follows k' (Callback.is_queue_poisoned k) = (b : Bool) × (k' ≡ k b)
  Follows k' (Callback.clear_queue_poison k) = k' ≡ k
  Follows k' _ = ⊥

  -- The order of the places that a call goes through.
  abbrev pub rank : Pc c → ℕ
  rank idle = 0
  rank panicked = 1
  rank guarded = 2
  rank (returned _) = 3
  rank failing = 4
  rank (settling _) = 4
  rank (running _ _) = 5
  rank (unlocked _ _) = 5
  rank (waiting _) = 6
  rank (entering _ _) = 7
  rank (calling _ _) = 8

  -- A step inside a callback.
  abbrev pub Inside : Pc c → Pc c → Type 0
  Inside (running h' k') (running h k) = Follows k' k
  Inside (unlocked h' k') (running h (Callback.unlocked k)) = k' ≡ k
  Inside (running h' k') (unlocked h k) = (o : Option c.Output) × (k' ≡ k o)
  Inside _ _ = ⊥

  -- Less is left to be done at the first place than at the second.
  abbrev pub Below : Pc c → Pc c → Type 0
  Below p' p = (rank p' < rank p) ⊎ Inside p' p

-- The states that follow by a move that goes on with a call, rounds of loops in callbacks left out.
pub data Onward {c : Client} (addr : ℕ) (s : System c) : System c → Type 0 where
  onward :
      (i : ℕ) {w : World c} {p : Pc c} (m : Move addr i s.world (s.pc i) w p)
      → Advances m
      → Onward addr s (record { world = w; pc = update s.pc i p })
