-- ===== src/Order/Asked.antt =====
-- Whose value a woken thread, or a callback that pops, gets.
use contention_queue.Prelude.{
  update-cases, ℕ, ◌≡◌, refl, sym, subst, ap, ◌∙◌, true, Bool, Option, none, some, ◌∷◌, List,
  get_elem?, arith, update, update_ne, Option-cases, inl, inr,
}
use contention_queue.Interface.{Client, ProcessTask, PanicOptions}
use contention_queue.Poisoning.{value, ignore_poison, lock}
use contention_queue.TaskState.{TaskState, wait_until_at_front}
use contention_queue.Task.{ErasedTask}
use contention_queue.Handle
use contention_queue.Handle.{QueueHandle, expect}
use contention_queue.Queue.{new_with_options, wait_result}
use contention_queue.World.{World, Pc, exclusive, set_mutex, waiting}
use contention_queue.Process.{resume, after_wait}
use contention_queue.Process.Resume.{after_pop}
use contention_queue.System.{System, Move, calls, passes_guard, Reach, start, later, pick, init}
use contention_queue.Invariant.{is_waiting}
use contention_queue.Invariant.Moves.{Reach-Inv}
use contention_queue.Safety.Memory.{pops_own_task}
use contention_queue.Order.Fates.{Fate, Taken, Mark, Marks, Decided}
use contention_queue.Order.Fates.Results.{Decided-Agreed}
use contention_queue.Order.Own.{
  Owned, Brings, requests, Move-Brings, Move-Owned, Owned-get, get-owner,
}

-- The states that can be reached, with the value of the last call of each thread.
pub data Asked {c : Client} (addr : ℕ) : System c → (ℕ → Option c.Value) → Type 0 where
  begins :
      (f : c.FrontState) (m : c.MutexState) (options : PanicOptions)
      → Asked addr (init f m options) (λ _. none)
  continues :
      {s : System c} {asked : ℕ → Option c.Value} (i : ℕ) {w : World c} {p : Pc c}
      → Asked addr s asked
      → (m : Move addr i s.world (s.pc i) w p)
      → Asked addr (record { world = w; pc = update s.pc i p }) (requests m asked)

pub Asked-Reach :
    {c : Client} {addr : ℕ} {s : System c} {asked : ℕ → Option c.Value}
    → Asked addr s asked
    → Reach addr s
Asked-Reach (begins f m options) = start f m options
Asked-Reach (continues i h m) = later (Asked-Reach h) (pick i m)

-- Only the thread that moves asks for something else.
requests_other :
    {c : Client} {addr i : ℕ} {w w' : World c} {p p' : Pc c} (m : Move addr i w p w' p')
    (asked : ℕ → Option c.Value) (j : ℕ)
    → ¬ (i ≡ j)
    → requests m asked j ≡ asked j
requests_other {i = i} (calls v task) asked j other = update_ne asked i j (some v) other
requests_other {i = i} (passes_guard v task) asked j other = update_ne asked i j (some v) other
requests_other _ asked j other = refl

Asked-Brings :
    {c : Client} {addr : ℕ} {s : System c} {asked : ℕ → Option c.Value}
    → Asked addr s asked
    → (j : ℕ) → Brings (asked j) (s.pc j)
Asked-Brings (begins f m options) j = tt
Asked-Brings (continues {s} {asked} i {w} {p} h m) j =
    update-cases s.pc i (λ j q. Brings (requests m asked j) q) p
      (Move-Brings asked m (Asked-Brings h i))
      (λ k other.
        subst (λ o. Brings o (s.pc k)) (sym (requests_other m asked k other)) (Asked-Brings h k))
      j

Asked-Owned :
    {c : Client} {addr : ℕ} {s : System c} {asked : ℕ → Option c.Value}
    → Asked addr s asked
    → Owned asked (exclusive s.world).queue
unfolding new_with_options
Asked-Owned (begins f m options) = tt
Asked-Owned (continues {s} {asked} i {w} {p} h m) =
    Move-Owned asked (Reach-Inv (Asked-Reach h)).front refl m (Asked-Brings h i) (Asked-Owned h)

-- In every reachable state, a thread that wakes up as the front pops the front task, whose
-- `TaskState` is its own, and goes on with what is in it: a value is the value of its own last call,
-- and where there is none, the callback of another thread has popped the value of that call.
pub own_value :
    {c : Client} {addr : ℕ} {s : System c} {asked : ℕ → Option c.Value} {fates : ℕ → Fate}
    → Asked addr s asked
    → Decided addr s fates
    → (i : ℕ) (task : ProcessTask c) (ts : TaskState) (b : Bool) → s.pc i ≡ waiting task
    → s.world.frames i ≡ some ts
    → wait_until_at_front ts ≡ some b
    → let w : World c = set_mutex (ignore_poison (lock i s.world.mutex)) s.world in
      (t : ErasedTask c.Value) × (rest : List (ErasedTask c.Value)) × ((exclusive s.world).queue
        ≡ t ∷ rest)
      × (t.state ≡ i)
      × (resume i w task b
          ≡ some (after_wait (after_pop i w task b rest) task (wait_result t.value b)))
      × ((v : c.Value) → t.value ≡ some v → asked i ≡ some v)
      × (t.value ≡ none → Taken i (fates i))
own_value {c} {asked = asked} {fates} h d i task ts b at live turn =
    let (t, rest, eq, own, res) = pops_own_task (Asked-Reach h) i task ts b at live turn in
    let mark =
      subst (λ j. Mark j (fates j) t.value) own
        (subst (Marks fates) eq (Decided-Agreed d).marks).0 in
    (
      t,
      rest,
      eq,
      own,
      res,
      λ v e. ap asked (sym own) ∙ (subst (Owned asked) eq (Asked-Owned h)).0 v e,
      λ e. subst (Mark i (fates i)) e mark,
    )

-- In every reachable state, a value that a handle pops from the queue is the value of the
-- last call of a thread that waits.
popped_from :
    {c : Client} {addr : ℕ} {s : System c} {asked : ℕ → Option c.Value}
    → Asked addr s asked
    → (h : QueueHandle) (v : c.Value) → (Handle.pop h (exclusive s.world)).0 ≡ value (some v)
    → (j : ℕ) × (is_waiting (s.pc j) ≡ true) × (asked j ≡ some v)
unfolding Handle.pop expect
popped_from {s} {asked} a h v e =
    elim (Option-cases (get_elem? (exclusive s.world).queue h.next_idx)) [
      | inl gone ↦ absurd (ground arith)
      | inr (t, found) ↦
          let has : t.value ≡ some v = ground arith in
          (
            t.state,
            sym ((Reach-Inv (Asked-Reach a)).front.queued t.state)
                ∙ get-owner h.next_idx (exclusive s.world).queue t found,
            Owned-get asked h.next_idx (exclusive s.world).queue t found (Asked-Owned a) v has,
          )
    ]
