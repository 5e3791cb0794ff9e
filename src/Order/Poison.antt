-- ===== src/Order/Poison.antt =====
-- The poison flag of a queue of src/queue.rs, against the course of all threads: what raises it, what
-- clears it, and what the options, the handle and `is_queue_poisoned` make of it.
use contention_queue.Prelude.{
  ℕ, ◌≡◌, refl, sym, subst, ap, ◌∙◌, true, false, Bool, ◌&&◌, Option, update, inl, inr,
}
use contention_queue.Interface.{Client, Callback, PanicOptions, ProcessTask}
use contention_queue.Poisoning.{Outcome, value, panics, ignore_poison, lock}
use contention_queue.Handle
use contention_queue.Handle.{QueueHandle}
use contention_queue.Handle.Values.{pop-poisoned}
use contention_queue.Queue.{new_with_options, push_task, queue_poison_panics}
use contention_queue.TaskState.{TaskState, wake_front_task, wake_front_task_panicking}
use contention_queue.World.{World, Pc, exclusive, set_exclusive, set_mutex}
use contention_queue.Process.{process, start_waiting, unwind, is_queue_poisoned}
use contention_queue.Process.Paths.{process-paths, resume-paths}
use contention_queue.Process.Branches.{lock_and_process-cases}
use contention_queue.Process.HandOver.{settle-some, fail-some, HandedOver, poisoned_by}
use contention_queue.Process.Flags.{is_queue_poisoned-Visited, clear_queue_poison-Visited}
use contention_queue.Run.{run_callback, answer, unlock, re_lock}
use contention_queue.System.{
  System, Move, locks, enters, resumes, runs, settles, fails, asks, clears, asks_unlocked,
  clears_unlocked, init,
}

module _ {c : Client} where
  -- A callback's own clearing of the flag.
  abbrev pub cleared_by : Callback c → Bool → Bool
  cleared_by (Callback.clear_queue_poison k) raised = false
  cleared_by _ raised = raised

  -- Whether the `Err` branch has ended since the flag was last cleared, after a move.
  abbrev pub raises :
      {addr i : ℕ} {w w' : World c} {p p' : Pc c} → Move addr i w p w' p' → Bool → Bool
  raises (fails free e) raised = true
  raises (clears free e) raised = false
  raises (clears_unlocked free e) raised = false
  raises (runs {h} {k}) raised = cleared_by k raised
  raises _ raised = raised

  module _ (b : Bool) where
    -- The flag is `b`.
    abbrev Reads : World c × Pc c → Type 0
    Reads r = (exclusive r.0).queue_poisoned ≡ b

    answer-Reads :
        (w : World c) (h : QueueHandle) (k : Option c.Value → Callback c)
        (o : Outcome (Option c.Value))
        → (exclusive w).queue_poisoned ≡ b
        → Reads (answer w h k o)
    answer-Reads w h k (value o) e = e
    answer-Reads w h k panics e = e

    run-reads :
        (w : World c) (h : QueueHandle) (k : Callback c)
        → (exclusive w).queue_poisoned ≡ b
        → (exclusive (run_callback w h k).0).queue_poisoned ≡ cleared_by k b
    unfolding run_callback unlock Handle.clear_queue_poison
    run-reads w h (Callback.pop k) e =
        answer-Reads (set_exclusive (Handle.pop h (exclusive w)).2 w) (Handle.pop h (exclusive w)).1
          k (Handle.pop h (exclusive w)).0 (pop-poisoned h (exclusive w) ∙ e)
    run-reads w h (Callback.peek k) e = answer-Reads w h k (Handle.peek h (exclusive w)) e
    run-reads w h (Callback.clear_queue_poison k) e = refl
    run-reads w h _ e = e

    handed-reads :
        (wake : TaskState → TaskState) (w w' : World c)
        → HandedOver wake w w'
        → (exclusive w).queue_poisoned ≡ b
        → (exclusive w').queue_poisoned ≡ b
    handed-reads wake w w' (inl (e, eq)) at = ap (λ x. (exclusive x).queue_poisoned) eq ∙ at
    handed-reads wake w w' (inr (t, rest, s, e, live, eq)) at =
        ap (λ x. (exclusive x).queue_poisoned) eq ∙ at

    process-Reads :
        (addr i : ℕ) (w : World c) (v : c.Value) (task : ProcessTask c)
        → (exclusive w).queue_poisoned ≡ b
        → Reads (process addr i w v task)
    unfolding start_waiting push_task unwind
    process-Reads addr i w v task at =
        process-paths Reads i w v task addr (λ _. at) (λ a e l. at) (λ a e l. at) (λ a e l. at)

  Move-raises :
      {addr i : ℕ} {w w' : World c} {p p' : Pc c} (m : Move addr i w p w' p') (raised : Bool)
      → (exclusive w).queue_poisoned ≡ raised
      → (exclusive w').queue_poisoned ≡ raises m raised
  unfolding re_lock unwind
  Move-raises {i = i} {w} (locks {v} {task} free) raised at =
      lock_and_process-cases (Reads raised) i w v task at at
  Move-raises {addr} {i} {w} (enters {v} {task}) raised at = process-Reads raised addr i w v task at
  Move-raises {w = w} (runs {h} {k}) raised at = run-reads raised w h k at
  Move-raises {i = i} {w} (resumes {task} {s} {b} {r} free live awake now e) raised at =
      let w₁ : World c = set_mutex (ignore_poison (lock i w.mutex)) w in
      resume-paths (Reads raised) i w₁ task b e (λ t rest q. at) (λ t rest q v has. at)
        (λ t rest q result. at)
  Move-raises {w = w} (settles {result} e) raised at =
      let (w', over, eq) = settle-some w result e in
      subst (Reads raised) (sym eq) (handed-reads raised wake_front_task w w' over at)
  Move-raises {i = i} {w} (fails free e) raised at =
      let (w', over, eq) = fail-some i w e in
      subst (Reads true) (sym eq)
        (handed-reads true wake_front_task_panicking (poisoned_by i w) w' over refl)
  Move-raises {addr} {i} {w} (asks {r} free e) raised at =
      ap (λ q. q.queue_poisoned) (is_queue_poisoned-Visited addr i w r e).1.contents ∙ at
  Move-raises {addr} {i} {w} (asks_unlocked {r = r} free e) raised at =
      ap (λ q. q.queue_poisoned) (is_queue_poisoned-Visited addr i w r e).1.contents ∙ at
  Move-raises {addr} {i} {w} {w'} (clears free e) raised at =
      ap (λ q. q.queue_poisoned) (clear_queue_poison-Visited addr i w w' e).contents
  Move-raises {addr} {i} {w} {w'} (clears_unlocked free e) raised at =
      ap (λ q. q.queue_poisoned) (clear_queue_poison-Visited addr i w w' e).contents
  Move-raises _ raised at = at

-- The reachable states, with whether the `Err` branch has ended since the flag was last cleared.
pub data Raised {c : Client} (addr : ℕ) : System c → Bool → Type 0 where
  begins :
      (f : c.FrontState) (m : c.MutexState) (options : PanicOptions)
      → Raised addr (init f m options) false
  continues :
      {s : System c} {raised : Bool} (i : ℕ) {w : World c} {p : Pc c}
      → Raised addr s raised
      → (m : Move addr i s.world (s.pc i) w p)
      → Raised addr (record { world = w; pc = update s.pc i p }) (raises m raised)

Raised-flag :
    {c : Client} {addr : ℕ} {s : System c} {raised : Bool}
    → Raised addr s raised
    → (exclusive s.world).queue_poisoned ≡ raised
unfolding new_with_options
Raised-flag (begins f m options) = refl
Raised-flag (continues {raised = raised} i r m) = Move-raises m raised (Raised-flag r)

-- In every course of the threads, each reader of the queue's poison finds it exactly if the `Err`
-- branch of some call has ended since the poison was last cleared, by client code or by a callback:
-- a call of `is_queue_poisoned` that returns, the handle, and the test of a woken thread, which
-- panics if the options unwrap the poison.
pub poison_told :
    {c : Client} {addr : ℕ} {s : System c} {raised : Bool} (i : ℕ)
    → Raised addr s raised
    → ((r : Bool × World c) → is_queue_poisoned addr i s.world ≡ value r → r.0 ≡ raised)
      × (Handle.is_queue_poisoned (exclusive s.world) ≡ raised)
      × (queue_poison_panics s.world.cq.options (exclusive s.world)
          ≡ (s.world.cq.options.unwrap_queue_poison && raised))
unfolding queue_poison_panics Handle.is_queue_poisoned
poison_told {addr = addr} {s} i r =
    let flag = Raised-flag r in
    (
      λ x e. (is_queue_poisoned-Visited addr i s.world x e).0 ∙ flag,
      flag,
      ap (λ b. s.world.cq.options.unwrap_queue_poison && b) flag,
    )
