-- ===== src/Safety/Peaceful.antt =====
-- After a callback of a task of src/queue.rs has panicked, no call returns.
use contention_queue.Prelude.{
  ℕ, ◌≡◌, ◌⊎◌, inl, inr, refl, sym, ap, ◌∙◌, true, false, Bool, Option, update, update_self, arith,
  Bool-cases, some_injective, ◌&&◌, ◌||◌,
}
use contention_queue.Interface.{Client, Callback, PanicOptions, ProcessResult}
use contention_queue.Poisoning.{Outcome, value, panics}
use contention_queue.Handle
use contention_queue.Handle.{QueueHandle}
use contention_queue.World.{World, Pc, exclusive, set_exclusive, running, failing, returned}
use contention_queue.Run.{run_callback, answer, unlock}
use contention_queue.System.{System, Move, Reach, start, later, pick, init, runs}
use contention_queue.Invariant.{holds_lock}
use contention_queue.Invariant.Moves.{Reach-Inv}
use contention_queue.Safety.Hang.{IsStuck, Step-IsStuck}

module _ {c : Client} where
  abbrev pub is_running : Pc c → Bool
  is_running (running h k) = true
  is_running _ = false

  abbrev pub is_failing : Pc c → Bool
  is_failing failing = true
  is_failing _ = false

-- Whether a callback panics in a move.
abbrev pub callback_panics : {c : Client} → Pc c → Pc c → Bool
callback_panics p p' = is_running p && is_failing p'

-- The states that can be reached, with whether a callback has panicked in the course that leads there.
pub data Panicked {c : Client} (addr : ℕ) : System c → Bool → Type 0 where
  begins :
      (f : c.FrontState) (m : c.MutexState) (options : PanicOptions)
      → Panicked addr (init f m options) false
  continues :
      {s : System c} {before : Bool} (i : ℕ) {w : World c} {p : Pc c}
      → Panicked addr s before
      → Move addr i s.world (s.pc i) w p
      → Panicked addr
          (record { world = w; pc = update s.pc i p })
          (before || callback_panics (s.pc i) p)

Panicked-Reach :
    {c : Client} {addr : ℕ} {s : System c} {past : Bool} → Panicked addr s past → Reach addr s
Panicked-Reach (begins f m options) = start f m options
Panicked-Reach (continues i r m) = later (Panicked-Reach r) (pick i m)

-- A panic of a callback leaves the lock as it is.
run-holder :
    {c : Client} (w : World c) (h : QueueHandle) (k : Callback c)
    → is_failing (run_callback w h k).1 ≡ true
    → (run_callback w h k).0.mutex.holder ≡ w.mutex.holder
unfolding run_callback unlock
run-holder {c} w h (Callback.peek k) e = go (Handle.peek h (exclusive w))
  where
    go : (x : Outcome (Option c.Value)) → (answer w h k x).0.mutex.holder ≡ w.mutex.holder
    go (value x) = refl
    go panics = refl
run-holder {c} w h (Callback.pop k) e =
    go (set_exclusive (Handle.pop h (exclusive w)).2 w) (Handle.pop h (exclusive w)).1
      (Handle.pop h (exclusive w)).0
  where
    go :
        (w : World c) (h : QueueHandle) (x : Outcome (Option c.Value))
        → (answer w h k x).0.mutex.holder ≡ w.mutex.holder
    go w h (value x) = refl
    go w h panics = refl
run-holder w h (Callback.unlocked k) e = absurd (ground arith)
run-holder w h _ e = refl

panic-holder :
    {c : Client} {addr i : ℕ} {w w' : World c} {p p' : Pc c}
    → Move addr i w p w' p'
    → is_running p ≡ true
    → is_failing p' ≡ true
    → w'.mutex.holder ≡ w.mutex.holder
panic-holder {w = w} (runs {h} {k}) at failed = run-holder w h k failed
panic-holder _ at failed = absurd (ground arith)

failing-of : {c : Client} (p : Pc c) → is_failing p ≡ true → p ≡ failing
failing-of failing e = refl
failing-of _ e = absurd (ground arith)

running-holds : {c : Client} (p : Pc c) → is_running p ≡ true → holds_lock p ≡ true
running-holds p e = ground arith

-- A callback that has panicked keeps its thread, and the lock, for good.
panic_cases :
    {c : Client} {addr : ℕ} {s : System c} {past : Bool}
    → Panicked addr s past
    → (past ≡ false) ⊎ ((j : ℕ) × IsStuck j s)
panic_cases (begins f m options) = inl refl
panic_cases (continues {s = s} {before} i {w = w} {p = p} r m) = elim (panic_cases r) [
  | inr (j, stuck) ↦ inr (j, Step-IsStuck j (Panicked-Reach r) (pick i m) stuck)
  | inl peace ↦ elim (Bool-cases (is_failing p)) [
    | inr fine ↦ inl (ground arith)
    | inl failed ↦ elim (Bool-cases (is_running (s.pc i))) [
      | inr out ↦ inl (ground arith)
      | inl at ↦
          let own = (Reach-Inv (Panicked-Reach r)).lock.locked i (running-holds (s.pc i) at) in
          inr (
            i,
            record {
              failed = update_self s.pc i p ∙ failing-of p failed;
              locked = panic-holder m at failed ∙ own;
            },
          )
    ]
  ]
]

-- In every course of the threads: where a call has returned, with whatever result, no callback has
-- panicked in the course so far; so `ProcessingPanicked` too is returned only where none has.
pub returns_in_peace :
    {c : Client} {addr : ℕ} {s : System c} {past : Bool} (i : ℕ) (result : ProcessResult c.Return)
    → Panicked addr s past
    → s.pc i ≡ returned result
    → past ≡ false
returns_in_peace {s = s} i result r at = elim (panic_cases r) [
  | inl peace ↦ peace
  | inr (j, stuck) ↦
      let own = (Reach-Inv (Panicked-Reach r)).lock.locked i (ap holds_lock at) in
      let same = some_injective i j (sym own ∙ stuck.locked) in
      absurd (ground (arith, at, stuck.failed, ap s.pc same))
]
