-- ===== src/Scenarios/Served.antt =====
-- The theorem on the desk, at a state in which a callback pops.
use contention_queue.Prelude.{ℕ, refl, none, some, update}
use contention_queue.Interface.{Callback}
use contention_queue.Handle.{QueueHandle}
use contention_queue.World.{exclusive}
use contention_queue.Run.{run_callback}
use contention_queue.System.{System, runs}
use contention_queue.Desk.{Desk, Act, Serve, Stands, serving, entries}
use contention_queue.Desk.Refine.{simulates_desk}
use contention_queue.Order.History.{History-Reach}
use contention_queue.Schedule.{run}
use contention_queue.Scenarios.{popping, merge_next, counters}

abbrev pops : Callback counters
pops = Callback.pop (merge_next 10)

abbrev handle : QueueHandle
handle = record { next_idx = 0 }

-- The desk of the state in which thread 0 is about to pop, and the state after it.
abbrev before : Desk ℕ
before = record { front = some (0, none); line = entries (exclusive popping.last.world).queue }

abbrev after : System counters
after = record {
  world = (run_callback popping.last.world handle pops).0;
  pc = update popping.last.pc 0 (run_callback popping.last.world handle pops).1;
}

-- Its pop gets the value of thread 1, which stays in the line without it.
simulates_desk_example :
    (e : Desk ℕ) × Serve 0 (Act.pops (some 20)) before e × Stands (exclusive after.world) after.pc e
unfolding run
simulates_desk_example =
    simulates_desk before 0 (History-Reach popping.history) runs (serving 0 refl)
