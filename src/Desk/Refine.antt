-- ===== src/Desk/Refine.antt =====
-- The threads of a queue serve as the desk does.
use contention_queue.Prelude.{some_injective, ℕ, ◌≡◌, refl, sym, subst, ap, ◌∙◌, false, update}
use contention_queue.Interface.{Client, Callback, ProcessTask}
use contention_queue.Poisoning.{ignore_poison, lock}
use contention_queue.TaskState.{wake_front_task, wake_front_task_panicking}
use contention_queue.Handle
use contention_queue.Handle.{QueueHandle}
use contention_queue.Handle.Values.{peek_returns}
use contention_queue.Queue.{new_with_options, wait_result}
use contention_queue.World.{World, Pc, exclusive, set_mutex, running, entering}
use contention_queue.Process.{process, start_waiting, unwind, after_wait}
use contention_queue.Process.Paths.{process-paths}
use contention_queue.Process.Branches.{lock_and_process-cases}
use contention_queue.Process.Resume.{after_pop, after_wait-queue}
use contention_queue.Process.HandOver.{settle-some, fail-some, poisoned_by}
use contention_queue.Process.Flags.{is_queue_poisoned-Visited, clear_queue_poison-Visited}
use contention_queue.Run.{run_callback, answer, unlock, re_lock}
use contention_queue.System.{
  System, Move, locks, enters, resumes, runs, re_locks, settles, fails, asks, clears, asks_unlocked,
  clears_unlocked, Reach, start, later, pick,
}
use contention_queue.Invariant.{has_front}
use contention_queue.Invariant.Moves.{Reach-Inv, handle-Popped}
use contention_queue.Safety.Memory.{pops_own_task}
use contention_queue.Safety.Progress.{after_wait-front}
use contention_queue.Desk.{Desk, Act, Serve, Stands, vacant, arrives, uses, act}
use contention_queue.Desk.Serves.{Follows, keeps_desk, joins_desk, walks_up_desk}
use contention_queue.Desk.Turns.{starts_desk, leaves_desk, merges_desk}

module _ {c : Client} {addr : ℕ} {s : System c} {d₀ : Desk c.Value} (r : Reach addr s) (i : ℕ)
    (f : Stands (exclusive s.world) s.pc d₀) where
  -- What thread `i` comes to follows from the desk by an act.
  abbrev After : Act c.Value → World c × Pc c → Type 0
  After a x = Follows i a d₀ (exclusive x.0) (update s.pc i x.1)

  process-Follows :
      {v : c.Value} {task : ProcessTask c}
      → s.pc i ≡ entering v task
      → After (arrives v (process addr i s.world v task).1) (process addr i s.world v task)
  unfolding start_waiting unwind
  process-Follows {v} {task} at =
      let out : has_front (s.pc i) ≡ false = ap has_front at in
      process-paths (λ x. After (arrives v x.1) x) i s.world v task addr
        (λ _. keeps_desk r i _ f refl refl (sym out))
        (λ a e taken. joins_desk r i _ v f taken out refl)
        (λ a e free. walks_up_desk r i _ v f free refl refl)
        (λ a e free. walks_up_desk r i _ v f free refl refl)

  run-Follows :
      (h : QueueHandle) (k : Callback c)
      → s.pc i ≡ running h k
      → After (uses s.world h k) (run_callback s.world h k)
  unfolding run_callback unlock Handle.clear_queue_poison
  run-Follows h (Callback.pop k) at =
      merges_desk r i h k f at (handle-Popped s.world i (Reach-Inv r).front at)
  run-Follows h (Callback.peek k) at =
      let shape = handle-Popped s.world i (Reach-Inv r).front at in
      let (o, e) = peek_returns h (exclusive s.world) shape in
      subst (λ x. After Act.nothing (answer s.world h k x)) (sym e)
        (keeps_desk r i _ f refl refl (sym (ap has_front at)))
  run-Follows h _ at = keeps_desk r i _ f refl refl (sym (ap has_front at))

  Move-Follows :
      {w : World c} {p p' : Pc c}
      → s.pc i ≡ p
      → (m : Move addr i s.world p w p') → Reach addr (record { world = w; pc = update s.pc i p' })
      → After (act m) (w, p')
  unfolding re_lock
  Move-Follows at (locks {v} {task} free) next =
      lock_and_process-cases (After Act.nothing) i s.world v task
        (keeps_desk r i _ f refl refl (sym (ap has_front at)))
        (keeps_desk r i _ f refl refl (sym (ap has_front at)))
  Move-Follows at (enters {v} {task}) next = process-Follows at
  Move-Follows at (runs {h} {k}) next = run-Follows h k at
  Move-Follows at (re_locks {h} {k} o free) next =
      keeps_desk r i _ f refl refl (sym (ap has_front at))
  Move-Follows at (resumes {task} {s = ts} {b} {r = x} free live awake turn e) next =
      let w : World c = set_mutex (ignore_poison (lock i s.world.mutex)) s.world in
      let (t, rest, eq, own, res) = pops_own_task r i task ts b at live turn in
      let y = after_wait (after_pop i w task b rest) task (wait_result t.value b) in
      let same = some_injective x y (sym e ∙ res) in
      subst (After Act.starts) (sym same) (
        starts_desk r i y.1 t rest
          (subst (λ z. Reach addr (record { world = z.0; pc = update s.pc i z.1 })) same next) f eq
          own (after_wait-queue (after_pop i w task b rest) task t.value b) (ap has_front at)
          (after_wait-front (after_pop i w task b rest) task t.value b))
  Move-Follows {w} {p} {p'} at (settles {result} {r = x} e) next =
      let (w', over, eq) = settle-some s.world result e in
      subst (After Act.leaves) (sym eq)
        (leaves_desk r i _ {w = s.world} wake_front_task f (ap has_front at) refl refl refl over)
  Move-Follows at (fails {r = x} free e) next =
      let (w', over, eq) = fail-some i s.world e in
      subst (After Act.leaves) (sym eq) (
        leaves_desk r i _ {w = poisoned_by i s.world} wake_front_task_panicking f (ap has_front at)
          refl refl refl over)
  Move-Follows at (asks {r = x} free e) next =
      let visited = (is_queue_poisoned-Visited addr i s.world x e).1 in
      keeps_desk r i _ f (ap (λ q. q.front_locked) visited.contents)
        (ap (λ q. q.queue) visited.contents) (sym (ap has_front at))
  Move-Follows at (asks_unlocked {r = x} free e) next =
      let visited = (is_queue_poisoned-Visited addr i s.world x e).1 in
      keeps_desk r i _ f (ap (λ q. q.front_locked) visited.contents)
        (ap (λ q. q.queue) visited.contents) (sym (ap has_front at))
  Move-Follows {w} at (clears free e) next =
      let visited = clear_queue_poison-Visited addr i s.world w e in
      keeps_desk r i _ f (ap (λ q. q.front_locked) visited.contents)
        (ap (λ q. q.queue) visited.contents) (sym (ap has_front at))
  Move-Follows {w} at (clears_unlocked free e) next =
      let visited = clear_queue_poison-Visited addr i s.world w e in
      keeps_desk r i _ f (ap (λ q. q.front_locked) visited.contents)
        (ap (λ q. q.queue) visited.contents) (sym (ap has_front at))
  Move-Follows at _ next = keeps_desk r i _ f refl refl (sym (ap has_front at))

-- In every reachable state that stands for a desk, each move of a thread is one act of that thread at
-- the desk, the one that `act` names, and leads to a state that stands for the desk after it: a call
-- that is not refused takes the free desk or joins the end of the line with its value, a woken thread
-- takes up its own place at the front, a pop takes the first value left in the line and finds none
-- only where none is left, the end of a call lets the next in line come, and no other move changes
-- the desk.
pub simulates_desk :
    {c : Client} {addr : ℕ} {s : System c} (d : Desk c.Value) (i : ℕ) {w : World c} {p : Pc c}
    → Reach addr s
    → (m : Move addr i s.world (s.pc i) w p) → Stands (exclusive s.world) s.pc d
    → (e : Desk c.Value) × Serve i (act m) d e × Stands (exclusive w) (update s.pc i p) e
simulates_desk d i r m stands =
    let f = Move-Follows r i stands refl m (later r (pick i m)) in (f.desk, f.served, f.stands)

-- Every reachable state stands for a desk.
Reach-Stands :
    {c : Client} {addr : ℕ} {s : System c}
    → Reach addr s
    → (d : Desk c.Value) × Stands (exclusive s.world) s.pc d
unfolding new_with_options
Reach-Stands (start x m options) = (_, vacant refl refl)
Reach-Stands (later r (pick i m)) =
    let (d, before) = Reach-Stands r in
    let (e, served, after) = simulates_desk d i r m before in (e, after)
