-- ===== src/Scenarios/Outcomes.antt =====
-- The theorems on how calls end, and on what they return, at concrete states.
use contention_queue.Prelude.{
  ℕ, ◌<◌, inl, true, Option, arith, ◌≡◌, refl, none, List, [], ◌∷◌, ◌++◌, Bool, false, ◌&&◌, ◌||◌,
}
use contention_queue.Interface.{ProcessResult, Callback, ProcessTask}
use contention_queue.Handle
use contention_queue.World.{World, Pc, exclusive}
use contention_queue.Run.{re_lock}
use contention_queue.Shape.{owners, is_live}
use contention_queue.Invariant.{is_waiting}
use contention_queue.Finish.{ahead}
use contention_queue.Finish.Place.{never_overtaken}
use contention_queue.Finish.Barging.{IsNext, no_barging}
use contention_queue.Safety.Aliasing.{refers_to_front}
use contention_queue.Poisoning.{value}
use contention_queue.Queue.{queue_poison_panics}
use contention_queue.Process.{is_queue_poisoned}
use contention_queue.Order.Poison.{Raised, raises, poison_told}
use contention_queue.Safety.Peaceful.{Panicked, callback_panics, returns_in_peace}
use contention_queue.Safety.Lent.{Lends, lends_to, kept_by, borrowed}
use contention_queue.Safety.Lent.Loans.{lent_alive}
use contention_queue.System.{System, Move}
use contention_queue.Order.Fates.{Fate, Told, decides, Decided}
use contention_queue.Order.Fates.Results.{results_true}
use contention_queue.Order.History.{History, History-Reach}
use contention_queue.Schedule.{Run, Choice, run, goes_on, re_locks}
use contention_queue.Scenarios.{contended, counters, options, start_three, merge_next, merge}

-- Thread 0 has merged the value of thread 1, which has been told.
abbrev told : Run counters 1
told = run 0 0 options (
    start_three
    ++ (0, re_locks none)
      ∷ (0, goes_on)
      ∷ (0, goes_on)
      ∷ (0, goes_on)
      ∷ (0, goes_on)
      ∷ (1, goes_on)
      ∷ (1, goes_on)
      ∷ [])

told_pc : told.last.pc 1 ≡ Pc.returned ProcessResult.processed_elsewhere
unfolding run
told_pc = refl

module _ {addr : ℕ} where
  -- What a history decides.
  abbrev pub judged : {s : System counters} {ins outs : List ℕ} → History addr s ins outs → ℕ → Fate
  judged (History.begins f m o) = λ _. Fate.undecided
  judged (History.continues i h m) = decides m (judged h)

  pub History-Decided :
      {s : System counters} {ins outs : List ℕ} (h : History addr s ins outs)
      → Decided addr s (judged h)
  History-Decided (History.begins f m o) = Decided.begins f m o
  History-Decided (History.continues i h m) = Decided.continues i (History-Decided h) m

results_true_example : Told {R = ℕ} 1 (Fate.popped_by 0) ProcessResult.processed_elsewhere
unfolding run
results_true_example =
    results_true (History-Decided told.history) 1 ProcessResult.processed_elsewhere refl

module _ {addr : ℕ} where
  -- Who has borrowed whose value in a history.
  abbrev lending :
      {s : System counters} {ins outs : List ℕ} → History addr s ins outs → ℕ → Option ℕ
  lending (History.begins f m o) = λ _. none
  lending (History.continues i {p = p} h m) =
      λ j. kept_by i (refers_to_front p) (lends_to i (borrowed m) (lending h) j)

  History-Lends :
      {s : System counters} {ins outs : List ℕ} (h : History addr s ins outs)
      → Lends addr s (lending h)
  History-Lends (History.begins f m o) = Lends.begins f m o
  History-Lends (History.continues i h m) = Lends.continues i (History-Lends h) m

-- Thread 0 has popped the value of thread 1, and its callback is not over.
abbrev merging : Run counters 1
merging = run 0 0 options (start_three ++ (0, re_locks none) ∷ (0, goes_on) ∷ [])

lent_alive_example :
    (is_waiting (merging.last.pc 1) ≡ true)
    × (is_live (merging.last.world.frames 1) ≡ true)
    × (refers_to_front (merging.last.pc 0) ≡ true)
unfolding run
lent_alive_example = lent_alive (History-Lends merging.history) 1 0 refl

abbrev relocked : World counters × Pc counters
relocked = re_lock 0 contended.last.world Handle.new (λ _. Callback.pop (merge_next 10)) none

never_overtaken_example :
    ahead 1 (owners (exclusive relocked.0).queue) < ahead 2 (owners (exclusive relocked.0).queue)
unfolding run re_lock
never_overtaken_example =
    never_overtaken {k = 0} {p = relocked.1} 1 2 (History-Reach contended.history)
      (Move.re_locks none refl) refl refl refl (inl (refl, omega arith))

-- Pops two values and returns.
abbrev merge_two : ProcessTask counters
merge_two v = Callback.unlocked λ _. Callback.pop λ a. Callback.pop λ b. Callback.return v

-- Thread 3 has poisoned the queue through a poisoned mutex, and has cleared the mutex.
abbrev poison_queue : List (ℕ × Choice counters)
poison_queue =
    (3, Choice.locks)
    ∷ (3, Choice.panics)
    ∷ (3, goes_on)
    ∷ (3, Choice.locks)
    ∷ (3, Choice.passes 5 merge)
    ∷ (3, goes_on)
    ∷ (3, goes_on)
    ∷ (3, goes_on)
    ∷ (3, Choice.clears_mutex)
    ∷ []

-- Thread 0 takes the values of threads 1 and 2, which wait, and returns.
abbrev process_three : List (ℕ × Choice counters)
process_three =
    (0, Choice.calls 10 merge_two)
    ∷ (0, goes_on)
    ∷ (0, goes_on)
    ∷ (0, goes_on)
    ∷ (1, Choice.calls 20 merge)
    ∷ (1, goes_on)
    ∷ (1, goes_on)
    ∷ (2, Choice.calls 30 merge)
    ∷ (2, goes_on)
    ∷ (2, goes_on)
    ∷ (0, re_locks none)
    ∷ (0, goes_on)
    ∷ (0, goes_on)
    ∷ (0, goes_on)
    ∷ (0, goes_on)
    ∷ []

-- Thread 1 panics at the queue poison and wakes thread 2; thread 3 clears the queue before that.
abbrev mislead : List (ℕ × Choice counters)
mislead =
    (0, goes_on)
    ∷ (1, goes_on)
    ∷ (1, goes_on)
    ∷ (3, Choice.clears_queue)
    ∷ (2, goes_on)
    ∷ (2, goes_on)
    ∷ []

abbrev processed : Run counters 1
processed = run 0 0 options (poison_queue ++ process_three)

abbrev misled : Run counters 1
misled = run 0 0 options (poison_queue ++ process_three ++ mislead)

-- The call that has processed the value of thread 2 returns `Processed`, and thread 2 is told
-- `ProcessingPanicked`.
misled_pc :
    (processed.last.pc 0 ≡ Pc.returned (ProcessResult.processed 10))
    × (misled.last.pc 2 ≡ Pc.returned ProcessResult.processing_panicked)
    × (judged misled.history 2 ≡ Fate.popped_by 0)
unfolding run
misled_pc = (refl, refl, refl)

module _ {addr : ℕ} where
  -- Whether a callback has panicked in a history.
  abbrev panicking : {s : System counters} {ins outs : List ℕ} → History addr s ins outs → Bool
  panicking (History.begins f m o) = false
  panicking (History.continues {s} i {p = p} h m) = panicking h || callback_panics (s.pc i) p

  History-Panicked :
      {s : System counters} {ins outs : List ℕ} (h : History addr s ins outs)
      → Panicked addr s (panicking h)
  History-Panicked (History.begins f m o) = Panicked.begins f m o
  History-Panicked (History.continues i h m) = Panicked.continues i (History-Panicked h) m

returns_in_peace_example : panicking misled.history ≡ false
unfolding run
returns_in_peace_example =
    returns_in_peace 2 ProcessResult.processing_panicked (History-Panicked misled.history) refl

module _ {addr : ℕ} where
  -- Whether the queue is poisoned after a history.
  abbrev raising : {s : System counters} {ins outs : List ℕ} → History addr s ins outs → Bool
  raising (History.begins f m o) = false
  raising (History.continues i h m) = raises m (raising h)

  History-Raised :
      {s : System counters} {ins outs : List ℕ} (h : History addr s ins outs)
      → Raised addr s (raising h)
  History-Raised (History.begins f m o) = Raised.begins f m o
  History-Raised (History.continues i h m) = Raised.continues i (History-Raised h) m

poison_told_example :
    ((r : Bool × World counters)
      → is_queue_poisoned 1 4 processed.last.world ≡ value r
      → r.0 ≡ true)
    × (Handle.is_queue_poisoned (exclusive processed.last.world) ≡ true)
    × (queue_poison_panics processed.last.world.cq.options (exclusive processed.last.world)
        ≡ (processed.last.world.cq.options.unwrap_queue_poison && true))
unfolding run
poison_told_example = poison_told 4 (History-Raised processed.history)

-- Thread 0 has returned and has dropped its guard, and thread 1 is the front.
abbrev freed : Run counters 1
freed = run 0 0 options (
    start_three
    ++ (0, re_locks none) ∷ (0, goes_on) ∷ (0, goes_on) ∷ (0, goes_on) ∷ (0, goes_on) ∷ [])

no_barging_example : IsNext (History-Reach freed.history) 1
unfolding run
no_barging_example =
    no_barging (History-Reach freed.history) 1 (Move.resumes refl refl refl refl refl) refl refl
