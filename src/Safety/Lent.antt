-- ===== src/Safety/Lent.antt =====
-- The values that a callback has popped: `ErasedTask::take` of src/task.rs gives them a lifetime that
-- ends with the callback, and they borrow from the stack frame of the thread that submitted them.
pub mod Loans
use contention_queue.Prelude.{
  ℕ, ◌≡◌, ◌≢◌, ◌⊎◌, inl, inr, refl, sym, subst, ap, ◌∙◌, true, false, Bool, Option, none, some,
  List, ◌∷◌, get_elem?, update, update_self, update_ne, update-cases, ℕ_discrete, arith,
  Option-cases, some_injective, ◌==◌, ==_iff, if◌then◌else◌,
}
use contention_queue.Interface.{Client, Callback, PanicOptions}
use contention_queue.Poisoning.{ignore_poison, lock}
use contention_queue.Task.{ErasedTask}
use contention_queue.Handle.{QueueHandle}
use contention_queue.World.{World, Pc, exclusive, set_mutex, running, unlocked, waiting}
use contention_queue.System.{
  System, Move, Reach, start, later, pick, init, runs, resumes, wakes_spuriously, waits_again,
}
use contention_queue.Process.Resume.{after_pop, resume-some}
use contention_queue.Shape.{is_live}
use contention_queue.Invariant.{is_waiting, has_front}
use contention_queue.Invariant.Moves.{Reach-Inv}
use contention_queue.Invariant.Front.Moved.{true-ne-false}
use contention_queue.Order.Own.{get-owner}
use contention_queue.Safety.{front_exclusion}
use contention_queue.Safety.Aliasing.{refers_to_front}
use contention_queue.Safety.Progress.{after_wait-front}

module _ {c : Client} where
  -- The thread whose task a use of the handle pops.
  abbrev pub borrows_from : World c → QueueHandle → Callback c → Option ℕ
  borrows_from w h (Callback.pop k) = elim (get_elem? (exclusive w).queue h.next_idx) [
    | none ↦ none
    | some t ↦ some t.state
  ]
  borrows_from w h _ = none

  abbrev pub borrowed :
      {addr i : ℕ} {w w' : World c} {p p' : Pc c} → Move addr i w p w' p' → Option ℕ
  borrowed {w = w} (runs {h} {k}) = borrows_from w h k
  borrowed _ = none

-- Thread `i` borrows the value of thread `j`.
abbrev pub lends_to : ℕ → Option ℕ → (ℕ → Option ℕ) → ℕ → Option ℕ
lends_to i none lent = lent
lends_to i (some j) lent = update lent j (some i)

-- At the end of its callback, thread `i` gives all values back.
abbrev pub kept_by : ℕ → Bool → Option ℕ → Option ℕ
kept_by i over none = none
kept_by i true (some j) = some j
kept_by i false (some j) = if j == i then none else some j

-- The states that can be reached, with the thread that has borrowed the value of each thread.
pub data Lends {c : Client} (addr : ℕ) : System c → (ℕ → Option ℕ) → Type 0 where
  begins :
      (f : c.FrontState) (m : c.MutexState) (options : PanicOptions)
      → Lends addr (init f m options) (λ _. none)
  continues :
      {s : System c} {lent : ℕ → Option ℕ} (i : ℕ) {w : World c} {p : Pc c}
      → Lends addr s lent
      → (m : Move addr i s.world (s.pc i) w p)
      → Lends addr
          (record { world = w; pc = update s.pc i p })
          (λ j. kept_by i (refers_to_front p) (lends_to i (borrowed m) lent j))

pub Lends-Reach :
    {c : Client} {addr : ℕ} {s : System c} {lent : ℕ → Option ℕ} → Lends addr s lent → Reach addr s
Lends-Reach (begins f m options) = start f m options
Lends-Reach (continues i h m) = later (Lends-Reach h) (pick i m)
