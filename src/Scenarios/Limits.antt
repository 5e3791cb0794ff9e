-- ===== src/Scenarios/Limits.antt =====
-- The theorems on bounds, on poison that never comes, and on whose value it is, at concrete states.
use contention_queue.Prelude.{
  ℕ, ◌≡◌, ◌⊎◌, refl, true, false, Option, none, some, List, [], ◌∷◌, get_elem?, update, arith,
  ℕ_discrete,
}
use contention_queue.Interface.{Callback, ProcessTask, PanicOptions}
use contention_queue.Poisoning.{value, ignore_poison, lock}
use contention_queue.Task.{ErasedTask}
use contention_queue.Handle
use contention_queue.Handle.{QueueHandle}
use contention_queue.Queue.{wait_result}
use contention_queue.World.{Pc, World, exclusive, set_mutex, failing}
use contention_queue.Process.{resume, after_wait}
use contention_queue.Process.Resume.{after_pop}
use contention_queue.System.{System, Steps, here, next, pick, Move, init}
use contention_queue.Safety.Poisoned.{never_poisoned}
use contention_queue.Safety.Undisturbed.{undisturbed}
use contention_queue.Safety.Bounds.{state_byte}
use contention_queue.Safety.Escaped.{escape, lock_lost}
use contention_queue.Invariant.{holds_lock, has_front, is_waiting}
use contention_queue.Run.{run_callback}
use contention_queue.Slots.{Slots, vacant, new_slots, SlotReach, slot_callback}
use contention_queue.Slots.Reached.{callback_defined, slot_guard}
use contention_queue.Order.Own.{requests}
use contention_queue.Order.Asked.{Asked, own_value}
use contention_queue.Order.Fates.{Fate, Taken}
use contention_queue.Order.Kept.{value_leaves}
use contention_queue.Order.History.{History, History-Reach}
use contention_queue.Schedule.{Run, run, calls, goes_on, re_locks}
use contention_queue.Scenarios.{
  options, fails_after, contended, popping, handed, merge, merge_next, counters,
}
use contention_queue.Scenarios.Calls.{woken}
use contention_queue.Scenarios.Outcomes.{History-Decided}

abbrev boom : ProcessTask counters
boom v = Callback.panic

abbrev lenient : PanicOptions
lenient = record { unwrap_mutex_poison = false; unwrap_queue_poison = true }

-- Thread 0's callback has panicked.
abbrev broken : Run counters 1
broken = run 0 0 lenient ((0, calls 10 boom) ∷ (0, goes_on) ∷ (0, goes_on) ∷ (0, goes_on) ∷ [])

to_broken : Steps 1 (init {c = counters} 0 0 lenient) broken.last
unfolding run
to_broken =
    next
      (next (next (next here (pick 0 (Move.calls 10 boom))) (pick 0 (Move.locks refl)))
        (pick 0 Move.enters))
      (pick 0 Move.runs)

never_poisoned_example :
    ((exclusive broken.last.world).queue_poisoned ≡ false)
    × (broken.last.pc 0 ≡ failing → broken.last.world.mutex.holder ≡ some 0)
never_poisoned_example = never_poisoned 0 0 lenient 0 refl to_broken

abbrev start : QueueHandle
start = record { next_idx = 0 }

undisturbed_example :
    (contended.last.world.cq.front_exclusive ≡ contended.last.world.cq.front_exclusive)
    × (Handle.peek start (exclusive contended.last.world) ≡ value (some 20))
unfolding run Handle.peek
undisturbed_example =
    undisturbed (History-Reach contended.history) 0 5 (Move.calls 7 merge) start 20 refl
      (omega arith) refl

state_byte_example : (woken.state ≡ 0) ⊎ ((woken.state ≡ 1) ⊎ (woken.state ≡ 3))
unfolding run
state_byte_example = state_byte (History-Reach handed.history) 1 woken refl

module _ {addr : ℕ} where
  -- What the threads have asked for in a history.
  abbrev asking : {s : System counters} {ins outs : List ℕ} → History addr s ins outs → ℕ → Option ℕ
  asking (History.begins f m o) = λ _. none
  asking (History.continues i h m) = requests m (asking h)

  History-Asked :
      {s : System counters} {ins outs : List ℕ} (h : History addr s ins outs)
      → Asked addr s (asking h)
  History-Asked (History.begins f m options) = Asked.begins f m options
  History-Asked (History.continues i h m) = Asked.continues i (History-Asked h) m

own_value_example :
    let w : World counters =
      set_mutex (ignore_poison (lock 1 handed.last.world.mutex)) handed.last.world in
    (t : ErasedTask ℕ) × (rest : List (ErasedTask ℕ)) × ((exclusive handed.last.world).queue
      ≡ t ∷ rest)
    × (t.state ≡ 1)
    × (resume 1 w merge false
        ≡ some (after_wait (after_pop 1 w merge false rest) merge (wait_result t.value false)))
    × ((v : ℕ) → t.value ≡ some v → some 20 ≡ some v)
    × (t.value ≡ none → Taken 1 (Fate.popped_by 0))
unfolding run
own_value_example =
    own_value (History-Asked handed.history) (History-Decided handed.history) 1 merge woken false
      refl refl refl

abbrev slots_running : ℕ → Slots
slots_running = update (update (update (λ _. vacant) 0 vacant) 0 vacant) 0 (new_slots 0)

-- Thread 0 is about to panic.
abbrev panicking : Run counters 1
panicking = run 0 0 lenient ((0, calls 10 boom) ∷ (0, goes_on) ∷ (0, goes_on) ∷ [])

slots_in : SlotReach 1 panicking.last slots_running
unfolding run
slots_in =
    SlotReach.continues 0
      (SlotReach.continues 0
        (SlotReach.continues 0 (SlotReach.begins 0 0 lenient) (Move.calls 10 boom) refl)
        (Move.locks refl) refl)
      Move.enters refl

-- The guard stays in its slot.
abbrev left_behind : Slots
left_behind = record { guard = some 0; mutex_exclusive_guard = none }

slots_after : SlotReach 1 broken.last (update slots_running 0 left_behind)
unfolding run slot_callback
slots_after = SlotReach.continues 0 slots_in Move.runs refl

callback_defined_example :
    (x : Slots) × (slot_callback panicking.last.world start (new_slots 0) (boom 10)
      ≡ some (x, run_callback panicking.last.world start (boom 10)))
unfolding run
callback_defined_example = callback_defined slots_in 0 start (boom 10) refl

abbrev thread : ℕ
thread = 0

slot_guard_example : (thread ≡ thread) × (broken.last.world.mutex.holder ≡ some 0)
unfolding ℕ_discrete
slot_guard_example = slot_guard slots_after 0 0 refl

abbrev pops : Callback counters
pops = Callback.pop (merge_next 10)

abbrev popped : World counters × Pc counters
popped = run_callback popping.last.world start pops

-- The task of thread 1.
abbrev queued : ErasedTask ℕ
queued = record { maybe_dangling = record { state = 1; value = some 20 } }

value_leaves_example :
    ((k : ℕ) × (get_elem? (exclusive popped.0).queue k ≡ some queued))
    ⊎ ((1 ≡ thread)
        ⊎ ((h : QueueHandle) × (k : Option ℕ → Callback counters) × (popping.last.pc 0
              ≡ Pc.running h (Callback.pop k))
            × ((Handle.pop h (exclusive popping.last.world)).0 ≡ value (some 20))))
unfolding run
value_leaves_example =
    value_leaves {i = 0} {p = popped.1} (History-Reach popping.history) Move.runs 0 queued 20 refl
      refl

-- The callback of thread 0 has panicked, and thread 1 waits.
abbrev failed : Run counters 1
failed = run 0 0 options (
    (0, calls 10 fails_after)
    ∷ (0, goes_on)
    ∷ (0, goes_on)
    ∷ (0, goes_on)
    ∷ (1, calls 20 merge)
    ∷ (1, goes_on)
    ∷ (1, goes_on)
    ∷ (0, re_locks none)
    ∷ (0, goes_on)
    ∷ [])

lock_lost_example :
    ((escape 0 failed.last).world.mutex.holder ≡ some 0)
    × ((exclusive (escape 0 failed.last).world).front_locked ≡ true)
    × ((j : ℕ)
        → (holds_lock ((escape 0 failed.last).pc j) ≡ false)
          × (has_front ((escape 0 failed.last).pc j) ≡ false))
    × (exclusive (escape 0 failed.last).world ≡ exclusive failed.last.world)
    × ((escape 0 failed.last).world.cq.front_exclusive ≡ failed.last.world.cq.front_exclusive)
    × ((j : ℕ)
        → is_waiting (failed.last.pc j) ≡ true
        → is_waiting ((escape 0 failed.last).pc j) ≡ true)
unfolding run
lock_lost_example = lock_lost 0 (History-Reach failed.history) refl refl here
