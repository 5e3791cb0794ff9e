-- ===== src/Finish/Turn.antt =====
-- The thread at the front can take its turn; so each waiting thread can have its turn.
use contention_queue.Prelude.{
  ℕ, zero, suc, ◌≡◌, ◌≢◌, ◌⊎◌, refl, sym, subst, ap, ◌∙◌, inl, inr, true, false, Bool, none, some,
  List, ◌∷◌, update, update_self, update_ne, ℕ_discrete, arith, Option-cases, ==_iff,
}
use contention_queue.Interface.{Client, ProcessTask}
use contention_queue.Poisoning.{unwind_guard, ignore_poison, lock}
use contention_queue.TaskState.{TaskState, wait_until_at_front}
use contention_queue.Task.{ErasedTask}
use contention_queue.Shape.{owners}
use contention_queue.Queue.{wait_result}
use contention_queue.World.{World, Pc, exclusive, set_mutex, waiting, failing}
use contention_queue.Process.{after_wait, unwind}
use contention_queue.Process.Resume.{after_pop, after_wait-cases}
use contention_queue.System.{
  System, Reach, Move, Steps, Steps-append, here, next, pick, later, resumes,
}
use contention_queue.Invariant.{has_front, is_waiting}
use contention_queue.Invariant.Front.Moved.{true-ne-false}
use contention_queue.Safety.Memory.{pops_own_task}
use contention_queue.Safety.Progress.{no_lost_wakeup, after_wait-front}
use contention_queue.Finish.{Calm, AlwaysReturns, ahead, Line}
use contention_queue.Finish.Moves.{Gets-append, others_sound, others_calm}
use contention_queue.Finish.Ends.{Free}
use contention_queue.Finish.Frees.{frees_lock, frees_front}

module _ {c : Client} where
  -- What a woken thread comes to: its callback will not panic or loop, it has no lock if it unwinds, and its
  -- task is no more in the queue.
  abbrev Woken : List (ErasedTask c.Value) → World c × Pc c → Type 0
  Woken rest r =
      Calm r.1 × (r.1 ≡ failing → r.0.mutex.holder ≡ none) × ((exclusive r.0).queue ≡ rest)

  wakes_line :
      (w : World c) (j : ℕ) (task : ProcessTask c) (b : Bool) (t : ErasedTask c.Value)
      (rest : List (ErasedTask c.Value))
      → AlwaysReturns task
      → Woken rest (after_wait (after_pop j w task b rest) task (wait_result t.value b))
  unfolding unwind unwind_guard
  wakes_line w j task b t rest calm =
      after_wait-cases (Woken rest) (after_pop j w task b rest) task t.value b (tt, λ e. refl, refl)
        (λ v e. (calm v, λ e. absurd (ground arith), refl))
        (λ r e. (tt, λ e. absurd (ground arith), refl))

  -- Thread `i`, with `n` tasks in front of its own, has had its turn, or it has got ahead.
  abbrev Advanced : ℕ → ℕ → ℕ → System c → Type 0
  Advanced addr i n s = (is_waiting (s.pc i) ≡ false) ⊎ ((m : ℕ) × (n ≡ suc m) × Line addr i m s)

module _ {c : Client} {addr i : ℕ} where
  takes_turn :
      {n : ℕ} {s : System c}
      → Line addr i n s
      → Free s
      → (t : System c) × Steps addr s t × Advanced addr i n t
  takes_turn {n} {s} line (free, nobody) = elim (no_lost_wakeup line.reach i line.waits) [
    | inl (j, hf) ↦ absurd (true-ne-false hf (nobody j))
    | inr (t, rest, ts, e, w, live, bl, turn) ↦ by t.state (s.pc t.state) refl w ts live bl turn
  ]
    where
      front_moved : (p : Pc c) → has_front p ≡ true → is_waiting p ≡ false
      front_moved p h = ground arith

      steps_past :
          (t : ErasedTask c.Value) (rest : List (ErasedTask c.Value))
          → t.state ≢ i
          → ahead i (owners (t ∷ rest)) ≡ suc (ahead i (owners rest))
      steps_past t rest ne = let other = (==_iff t.state i).0 in ground (arith, other)

      turned :
          (j : ℕ) (task : ProcessTask c)
          → s.pc j ≡ waiting task
          → (ts : TaskState) (b : Bool) → s.world.frames j ≡ some ts
          → ts.condvar.blocked ≡ false
          → wait_until_at_front ts ≡ some b
          → (t : System c) × Steps addr s t × Advanced addr i n t
      turned j task at ts b live bl turn =
          let (t, rest, e, own, eq) = pops_own_task line.reach j task ts b at live turn in
          let w : World c = set_mutex (ignore_poison (lock j s.world.mutex)) s.world in
          let r = after_wait (after_pop j w task b rest) task (wait_result t.value b) in
          let m =
            subst (λ x. Move addr j s.world x r.0 r.1) (sym at) (resumes free live bl turn eq) in
          let (calm, released_, left) =
            wakes_line w j task b t rest (subst Calm at (line.calm j)) in
          let front = after_wait-front (after_pop j w task b rest) task t.value b in
          (
            record { world = r.0; pc = update s.pc j r.1 },
            next here (pick j m),
            elim (ℕ_discrete j i) [
              | yes e ↦ inl (
                  ap (λ x. is_waiting (update s.pc x r.1 i)) e
                  ∙ ap is_waiting (update_self s.pc i r.1)
                  ∙ front_moved r.1 front)
              | no ne ↦ inr (
                ahead i (owners rest),
                sym line.place
                    ∙ ap (λ q. ahead i (owners q)) e
                    ∙ steps_past t rest (λ x. ne (sym own ∙ x)),
                record {
                  reach = later line.reach (pick j m);
                  calm = others_calm line j r.1 calm;
                  sound = others_sound line j m (λ mine lost. ground (arith, mine, released_ lost));
                  waits = ap is_waiting (update_ne s.pc j i r.1 ne) ∙ line.waits;
                  place = ap (λ q. ahead i (owners q)) left;
                },
              )
            ],
          )

      by :
          (j : ℕ) (p : Pc c)
          → s.pc j ≡ p
          → is_waiting (s.pc j) ≡ true
          → (ts : TaskState) → s.world.frames j ≡ some ts
          → ts.condvar.blocked ≡ false
          → wait_until_at_front ts ≢ none
          → (t : System c) × Steps addr s t × Advanced addr i n t
      by j (waiting task) at w ts live bl turn = elim (Option-cases (wait_until_at_front ts)) [
        | inl e ↦ absurd (turn e)
        | inr (b, e) ↦ turned j task at ts b live bl e
      ]
      by j _ at w ts live bl turn = absurd (ground arith)

gets_ahead :
    {c : Client} {addr i n : ℕ} {s : System c}
    → Line addr i n s
    → (t : System c) × Steps addr s t × Advanced addr i n t
gets_ahead line =
    let first = Gets-append (frees_lock line) (λ t line' free. frees_front line' free) in
    let (t, steps, advanced) = takes_turn first.line first.meets in
    (t, Steps-append first.steps steps, advanced)

has_turn :
    {c : Client} {addr i : ℕ} (n : ℕ) {s : System c}
    → Line addr i n s
    → (t : System c) × Steps addr s t × (is_waiting (t.pc i) ≡ false)
has_turn zero line =
    let (t, steps, advanced) = gets_ahead line in
    elim advanced [ inl done ↦ (t, steps, done) | inr (m, e, line') ↦ absurd (ground arith) ]
has_turn {addr = addr} {i} (suc n) line =
    let (t, steps, advanced) = gets_ahead line in
    elim advanced [
      | inl done ↦ (t, steps, done)
      | inr (m, e, line') ↦
          let same : m ≡ n = omega arith in
          let (u, more, done) = has_turn n (subst (λ x. Line addr i x t) same line') in
          (u, Steps-append steps more, done)
    ]

-- In every reachable state in which no callback will panic or loop, and no thread has lost a locked guard to a
-- panic, each thread that waits can come to the end of its wait: some moves of the threads lead to a
-- state in which it no longer waits.
waiter_can_finish :
    {c : Client} {addr : ℕ} {s : System c} (i : ℕ)
    → Reach addr s
    → ((j : ℕ) → Calm (s.pc j))
    → ((j : ℕ) → s.world.mutex.holder ≡ some j → s.pc j ≢ failing)
    → is_waiting (s.pc i) ≡ true
    → (t : System c) × Steps addr s t × (is_waiting (t.pc i) ≡ false)
waiter_can_finish {s = s} i r calm sound waits =
    has_turn (ahead i (owners (exclusive s.world).queue))
      (record { reach = r; calm = calm; sound = sound; waits = waits; place = refl })
