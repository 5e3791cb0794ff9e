-- ===== src/Desk/Turns.antt =====
-- What the moves of the thread at the front do at the desk: a woken thread starts, a callback merges,
-- and the end of a call lets the next thread come.
use contention_queue.Prelude.{
  ℕ, suc, ◌≡◌, ◌≢◌, refl, sym, subst, ap, ◌∙◌, inl, inr, true, false, Option, none, some, List, ◌∷◌,
  get_elem?, set, update, update_self, update_ne, arith, Option-cases,
}
use contention_queue.Interface.{Client, Callback}
use contention_queue.Poisoning.{Outcome, value}
use contention_queue.TaskState.{TaskState}
use contention_queue.Task.{ErasedTask, take}
use contention_queue.QueueState.{MutexExclusive}
use contention_queue.Handle
use contention_queue.Handle.{QueueHandle, expect}
use contention_queue.Handle.Values.{HasValue-some}
use contention_queue.World.{World, Pc, exclusive, set_exclusive, running}
use contention_queue.System.{System, Reach}
use contention_queue.Process.HandOver.{HandedOver}
use contention_queue.Run.{run_callback, answer}
use contention_queue.Shape.{Popped}
use contention_queue.Shape.Values.{Popped-get}
use contention_queue.Invariant.{has_front}
use contention_queue.Invariant.Front.Moved.{true-ne-false}
use contention_queue.Safety.{front_exclusion}
use contention_queue.Desk.{
  Desk, Act, Serve, takes_up, merges, finds_none, leaves_last, leaves_to, uses, popped, entry,
  entries, Stands, vacant, serving, called_up,
}
use contention_queue.Desk.Keeps.{entries-set, entries-AllTaken, served_front}
use contention_queue.Desk.Serves.{Follows, serves, nobody_left}

module _ {c : Client} {addr : ℕ} {s : System c} {d₀ : Desk c.Value} (r : Reach addr s) (i : ℕ)
    (p' : Pc c) where
  pub starts_desk :
      {w' : World c} (t : ErasedTask c.Value) (rest : List (ErasedTask c.Value))
      → Reach addr (record { world = w'; pc = update s.pc i p' })
      → Stands (exclusive s.world) s.pc d₀
      → (exclusive s.world).queue ≡ t ∷ rest
      → t.state ≡ i
      → (exclusive w').queue ≡ rest
      → has_front (s.pc i) ≡ false
      → has_front p' ≡ true
      → Follows i Act.starts d₀ (exclusive w') (update s.pc i p')
  starts_desk {w'} t rest r' f e own left before after = go refl f
    where
      go :
          {d : Desk c.Value}
          → d₀ ≡ d
          → Stands (exclusive s.world) s.pc d
          → Follows i Act.starts d₀ (exclusive w') (update s.pc i p')
      go served (vacant l empty) = absurd (ground arith)
      go served (serving h front) =
          let moved = λ (ne : i ≢ h). ap has_front (update_ne s.pc i h p' ne) ∙ front in
          let apart : i ≢ h =
            λ x. true-ne-false front (ap (λ j. has_front (s.pc j)) (sym x) ∙ before) in
          absurd (
            apart
              (front_exclusion r' i h (ap has_front (update_self s.pc i p') ∙ after)
                (moved apart)).0)
      go served (called_up u others taken first nobody) =
          let head : u ≡ t = cc in
          let tail_ : others ≡ rest = cc in
          let called =
            subst (λ x. d₀ ≡ (record { front = some (entry x); line = entries others })) head
              served in
          let there =
            subst (λ x. d₀ ≡ (record { front = some (entry t); line = entries x })) tail_ called in
          let mine =
            subst (λ x. d₀ ≡ (record { front = some (x, t.value); line = entries rest })) own
              there in
          record {
            desk = _;
            served =
                subst
                  (λ x. Serve i Act.starts d₀ (record { front = some (i, none); line = entries x }))
                  (sym left) (serves mine takes_up);
            stands = serving i (ap has_front (update_self s.pc i p') ∙ after);
          }

  -- The thread at the front leaves: nobody waits, or the next one is called up.
  pub leaves_desk :
      {w w' : World c} (wake : TaskState → TaskState)
      → Stands (exclusive s.world) s.pc d₀
      → has_front (s.pc i) ≡ true
      → has_front p' ≡ false
      → (exclusive w).queue ≡ (exclusive s.world).queue
      → (exclusive w).front_locked ≡ (exclusive s.world).front_locked
      → HandedOver wake w w'
      → Follows i Act.leaves d₀ (exclusive w') (update s.pc i p')
  leaves_desk {w} {w'} wake f before after eq el over = go over
    where
      served : d₀ ≡ (record { front = some (i, none); line = entries (exclusive w).queue })
      served =
          subst (λ x. d₀ ≡ (record { front = some (i, none); line = entries x })) (sym eq)
            (served_front r i before f)

      go : HandedOver wake w w' → Follows i Act.leaves d₀ (exclusive w') (update s.pc i p')
      go (inl (e, over)) = record {
        desk = _;
        served =
            serves
              (subst (λ x. d₀ ≡ (record { front = some (i, none); line = entries x })) e served)
              leaves_last;
        stands =
            vacant (ap (λ x. (exclusive x).front_locked) over)
              (ap (λ x. (exclusive x).queue) over ∙ e);
      }
      go (inr (t, rest, ts, e, live, over)) = record {
        desk = _;
        served =
            serves
              (subst (λ x. d₀ ≡ (record { front = some (i, none); line = entries x })) e served)
              leaves_to;
        stands =
            called_up t rest
              (ap (λ x. (exclusive x).front_locked) over
                ∙ el
                ∙ (front_exclusion r i i before before).1)
              (ap (λ x. (exclusive x).queue) over ∙ e) (nobody_left r i p' before after);
      }

module _ {V : Type 0} (h : QueueHandle) (q : MutexExclusive V) where
  pop-none : get_elem? q.queue h.next_idx ≡ none → Handle.pop h q ≡ (value none, h, q)
  unfolding Handle.pop
  pop-none e = ground arith

  pop-some :
      (t : ErasedTask V) (v : V)
      → get_elem? q.queue h.next_idx ≡ some t
      → t.value ≡ some v
      → Handle.pop h q ≡ (
        value (some v),
        record { next_idx = suc h.next_idx },
        record q { queue = set q.queue h.next_idx (take t).1 },
      )
  unfolding Handle.pop expect take
  pop-some t v e has = ground arith

-- A pop of the callback of the thread at the front takes the next value of the line.
pub merges_desk :
    {c : Client} {addr : ℕ} {s : System c} {d₀ : Desk c.Value} (r : Reach addr s) (i : ℕ)
    (h : QueueHandle) (k : Option c.Value → Callback c)
    → Stands (exclusive s.world) s.pc d₀
    → s.pc i ≡ running h (Callback.pop k)
    → Popped h.next_idx (exclusive s.world).queue
    → let x = run_callback s.world h (Callback.pop k) in
      Follows i (uses s.world h (Callback.pop k)) d₀ (exclusive x.0) (update s.pc i x.1)
unfolding run_callback
merges_desk {c} {s = s} {d₀} r i h k f at shape =
    elim (Option-cases (get_elem? q.queue h.next_idx)) [
      | inl e ↦ subst After (sym (pop-none h q e)) (record {
        desk = _;
        served = serves front (finds_none (entries-AllTaken h.next_idx q.queue shape e));
        stands = serving i (ap has_front (update_self s.pc i _));
      })
      | inr (t, e) ↦
          let (v, has) = HasValue-some t.value (Popped-get h.next_idx q.queue t shape e) in
          subst After (sym (pop-some h q t v e has)) (record {
            desk = _;
            served = serves front (merges (entries-set h.next_idx q.queue t v shape e has));
            stands = serving i (ap has_front (update_self s.pc i _));
          })
    ]
  where
    q : MutexExclusive c.Value
    q = exclusive s.world

    front : d₀ ≡ record { front = some (i, none); line = entries q.queue }
    front = served_front r i (ap has_front at) f

    After : Outcome (Option c.Value) × QueueHandle × MutexExclusive c.Value → Type 0
    After x =
        let a = answer (set_exclusive x.2 s.world) x.1 k x.0 in
        Follows i (popped x.0) d₀ (exclusive a.0) (update s.pc i a.1)
