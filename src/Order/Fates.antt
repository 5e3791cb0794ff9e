-- ===== src/Order/Fates.antt =====
-- What becomes of the value of each call: the thread's own callback runs on it, or the callback of
-- another thread pops it.
pub mod Marked
pub mod Moves
pub mod Agreement
pub mod Results
use contention_queue.Prelude.{ℕ, ◌≡◌, ◌≢◌, Option, none, some, List, [], ◌∷◌, get_elem?, update}
use contention_queue.Interface.{Client, Callback, ProcessResult, PanicOptions}
use contention_queue.Task.{ErasedTask}
use contention_queue.Handle.{QueueHandle}
use contention_queue.World.{
  World, Pc, exclusive, calling, entering, running, unlocked, settling, returned,
}
use contention_queue.Process.{process}
use contention_queue.System.{System, Move, calls, passes_guard, enters, resumes, runs, init}

pub data Fate : Type 0 where
  undecided : Fate
  ran : Fate
  popped_by : ℕ → Fate

abbrev pub Taken : ℕ → Fate → Type 0
Taken i fate = (j : ℕ) × (fate ≡ Fate.popped_by j) × (j ≢ i)

-- A task that has lost its value has lost it to another thread.
abbrev pub Mark : {V : Type 0} → ℕ → Fate → Option V → Type 0
Mark i fate none = Taken i fate
Mark i fate (some v) = fate ≡ Fate.undecided

abbrev pub Marks : {V : Type 0} → (ℕ → Fate) → List (ErasedTask V) → Type 0
Marks fates [] = Unit
Marks fates (t ∷ q) = Mark t.state (fates t.state) t.value × Marks fates q

-- What a result says of the value.
abbrev pub Told : {R : Type 0} → ℕ → Fate → ProcessResult R → Type 0
Told i fate (ProcessResult.processed r) = fate ≡ Fate.ran
Told i fate ProcessResult.processed_elsewhere = Taken i fate
Told i fate ProcessResult.processing_panicked = Taken i fate

abbrev pub pops_task : {V : Type 0} → ℕ → Option (ErasedTask V) → (ℕ → Fate) → ℕ → Fate
pops_task i none fates = fates
pops_task i (some t) fates = update fates t.state (Fate.popped_by i)

module _ {c : Client} where
  -- What a thread knows of its value at each place.
  abbrev pub Knows : ℕ → Fate → Pc c → Type 0
  Knows i fate (calling v task) = fate ≡ Fate.undecided
  Knows i fate (entering v task) = fate ≡ Fate.undecided
  Knows i fate (running h k) = fate ≡ Fate.ran
  Knows i fate (unlocked h k) = fate ≡ Fate.ran
  Knows i fate (settling r) = Told i fate r
  Knows i fate (returned r) = Told i fate r
  Knows i fate _ = Unit

  -- A thread that comes to its callback runs it on its own value.
  abbrev pub reaches : ℕ → Pc c → (ℕ → Fate) → ℕ → Fate
  reaches i (running h k) fates = update fates i Fate.ran
  reaches i _ fates = fates

  abbrev pub uses_handle : ℕ → World c → QueueHandle → Callback c → (ℕ → Fate) → ℕ → Fate
  uses_handle i w h (Callback.pop k) fates =
      pops_task i (get_elem? (exclusive w).queue h.next_idx) fates
  uses_handle i w h _ fates = fates

  -- What a move decides.
  abbrev pub decides :
      {addr i : ℕ} {w w' : World c} {p p' : Pc c} → Move addr i w p w' p' → (ℕ → Fate) → ℕ → Fate
  decides {i = i} (calls v task) fates = update fates i Fate.undecided
  decides {i = i} (passes_guard v task) fates = update fates i Fate.undecided
  decides {addr} {i} {w} (enters {v} {task}) fates = reaches i (process addr i w v task).1 fates
  decides {i = i} (resumes {r} free live awake turn e) fates = reaches i r.1 fates
  decides {i = i} {w} (runs {h} {k}) fates = uses_handle i w h k fates
  decides _ fates = fates

-- The states that can be reached, with what has become of the value of the last call of each thread.
pub data Decided {c : Client} (addr : ℕ) : System c → (ℕ → Fate) → Type 0 where
  begins :
      (f : c.FrontState) (m : c.MutexState) (options : PanicOptions)
      → Decided addr (init f m options) (λ _. Fate.undecided)
  continues :
      {s : System c} {fates : ℕ → Fate} (i : ℕ) {w : World c} {p : Pc c}
      → Decided addr s fates
      → (m : Move addr i s.world (s.pc i) w p)
      → Decided addr (record { world = w; pc = update s.pc i p }) (decides m fates)
