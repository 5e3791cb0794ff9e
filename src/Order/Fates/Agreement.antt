-- ===== src/Order/Fates/Agreement.antt =====
-- What a move of a thread decides agrees with what the thread knows and with the queue after it.
use contention_queue.Prelude.{
  false, ℕ, ◌≡◌, ◌≢◌, ◌⊎◌, inl, inr, refl, sym, subst, ap, ◌∙◌, false, true, Bool, some, List,
  get_elem?, arith, update_self, update_ne, ℕ_discrete, Option-cases, some_injective,
}
use contention_queue.Interface.{Client, Callback, ProcessTask}
use contention_queue.Poisoning.{ignore_poison, lock}
use contention_queue.TaskState.{TaskState, wait_until_at_front}
use contention_queue.Task.{ErasedTask, erase}
use contention_queue.Handle.{QueueHandle}
use contention_queue.Queue.{push_task, wait_result}
use contention_queue.World.{World, Pc, exclusive, set_mutex, waiting, running, entering}
use contention_queue.Process.{process, start_waiting, unwind, after_wait, resume}
use contention_queue.Process.Paths.{process-paths}
use contention_queue.Process.Branches.{lock_and_process-cases}
use contention_queue.Process.Resume.{after_pop, after_wait-queue}
use contention_queue.Process.HandOver.{settle-some, fail-some}
use contention_queue.Run.{re_lock}
use contention_queue.System.{
  writes_unlocked, repeats, System, Move, Reach, calls, passes_guard, locks, enters,
  wakes_spuriously, waits_again, resumes, runs, re_locks, settles, fails, asserts_unlocked,
  asks_unlocked, clears_unlocked, asks, clears,
}
use contention_queue.Shape.{owners, owns, Distinct}
use contention_queue.Invariant.{is_waiting}
use contention_queue.Invariant.Moves.{Reach-Inv}
use contention_queue.Safety.Memory.{pops_own_task}
use contention_queue.Order.Own.{get-owner}
use contention_queue.Order.Change.{Move-change}
use contention_queue.Order.Fates.{
  Fate, Mark, Marks, Knows, reaches, pops_task, uses_handle, decides,
}
use contention_queue.Order.Fates.Marked.{Marks-append, Marks-update}
use contention_queue.Order.Fates.Moves.{queues, Change-same, after_wait-Knows, run-Knows, run-Marks}

module _ {c : Client} {addr : ℕ} {s : System c} (r : Reach addr s) (i : ℕ) (fates : ℕ → Fate)
    (marks : Marks fates (exclusive s.world).queue) where
  out_of_queue : is_waiting (s.pc i) ≡ false → owns i (owners (exclusive s.world).queue) ≡ false
  out_of_queue out = (Reach-Inv r).front.queued i ∙ out

  -- What holds after a move of thread `i` to `x`.
  abbrev pub Agrees : (ℕ → Fate) → World c × Pc c → Type 0
  Agrees after x = Knows i (after i) x.1 × Marks after (exclusive x.0).queue

  process-Agrees :
      {v : c.Value} {task : ProcessTask c}
      → s.pc i ≡ entering v task
      → fates i ≡ Fate.undecided
      → let x = process addr i s.world v task in Agrees (reaches i x.1 fates) x
  unfolding start_waiting push_task unwind
  process-Agrees {v} {task} at open_ =
      let ran =
        Marks-update fates i Fate.ran (exclusive s.world).queue (out_of_queue (ap is_waiting at))
          marks in
      process-paths (λ x. Agrees (reaches i x.1 fates) x) i s.world v task addr (λ _. (tt, marks))
        (λ a e l. (
          tt,
          Marks-append fates (exclusive s.world).queue
              (erase (record { state = i; value = some v })) open_ marks,
        ))
        (λ a e l. (tt, marks)) (λ a e l. (update_self fates i Fate.ran, ran))

  -- The handle of a thread pops only tasks of other threads.
  uses_other :
      (w : World c) (h : QueueHandle) (k : Callback c)
      → owns i (owners (exclusive w).queue) ≡ false
      → uses_handle i w h k fates i ≡ fates i
  uses_other w h (Callback.pop k) out =
      elim (Option-cases (get_elem? (exclusive w).queue h.next_idx)) [
        | inl e ↦ ap (λ o. pops_task i o fates i) e
        | inr (t, e) ↦
            let other : t.state ≢ i = λ x.
              let here = get-owner h.next_idx (exclusive w).queue t e in
              let gone = subst (λ y. owns y (owners (exclusive w).queue) ≡ false) (sym x) out in
              ground arith in
            ap (λ o. pops_task i o fates i) e ∙ update_ne fates t.state i (Fate.popped_by i) other
      ]
  uses_other w h _ out = refl

  reaches-Marks :
      (p : Pc c) (q : List (ErasedTask c.Value))
      → owns i (owners q) ≡ false
      → Marks fates q
      → Marks (reaches i p fates) q
  reaches-Marks (running h k) q out m = Marks-update fates i Fate.ran q out m
  reaches-Marks _ q out m = m

  resume-Agrees :
      {task : ProcessTask c} {ts : TaskState} {b : Bool} {x : World c × Pc c}
      → s.pc i ≡ waiting task
      → s.world.frames i ≡ some ts
      → wait_until_at_front ts ≡ some b
      → resume i (set_mutex (ignore_poison (lock i s.world.mutex)) s.world) task b ≡ some x
      → Agrees (reaches i x.1 fates) x
  resume-Agrees {task} {ts} {b} {x} at live turn e =
      let w : World c = set_mutex (ignore_poison (lock i s.world.mutex)) s.world in
      let (t, rest, eq, own, res) = pops_own_task r i task ts b at live turn in
      let y = after_wait (after_pop i w task b rest) task (wait_result t.value b) in
      let same = some_injective x y (sym e ∙ res) in
      let before = subst (Marks fates) eq marks in
      let mark = subst (λ j. Mark j (fates j) t.value) own before.0 in
      let left = after_wait-queue (after_pop i w task b rest) task t.value b in
      let apart = subst (λ q. Distinct (owners q)) eq (Reach-Inv r).front.distinct in
      let out = subst (λ j. owns j (owners rest) ≡ false) own apart.0 in
      subst (λ z. Agrees (reaches i z.1 fates) z) (sym same)
        (
          after_wait-Knows i fates (after_pop i w task b rest) task t.value b mark,
          subst (Marks (reaches i y.1 fates)) (sym left) (reaches-Marks y.1 rest out before.1),
        )

  -- A move at a place where a thread neither joins the queue nor takes of it leaves the marks.
  unmoved :
      {w : World c} {p p' : Pc c}
      → Move addr i s.world p w p'
      → queues p ≡ false
      → Marks fates (exclusive w).queue
  unmoved m plain =
      subst (Marks fates) (sym (Change-same (Move-change addr i s.world m) plain)) marks

  pub Move-Agrees :
      {w : World c} {p p' : Pc c}
      → s.pc i ≡ p
      → (m : Move addr i s.world p w p') → Knows i (fates i) p
      → Agrees (decides m fates) (w, p')
  unfolding re_lock
  Move-Agrees at (calls v task) know = (
    update_self fates i Fate.undecided,
    Marks-update fates i Fate.undecided _ (out_of_queue (ap is_waiting at)) marks,
  )
  Move-Agrees at (passes_guard v task) know = (
    update_self fates i Fate.undecided,
    Marks-update fates i Fate.undecided _ (out_of_queue (ap is_waiting at)) marks,
  )
  Move-Agrees at (locks {v} {task} free) know =
      lock_and_process-cases (Agrees fates) i s.world v task (tt, marks) (know, marks)
  Move-Agrees at (enters {v} {task}) know = process-Agrees at know
  Move-Agrees at (wakes_spuriously live) know = (tt, marks)
  Move-Agrees at (waits_again free live awake turn) know = (tt, marks)
  Move-Agrees at (resumes free live awake turn e) know = resume-Agrees at live turn e
  Move-Agrees at (runs {h} {k}) know =
      let out = out_of_queue (ap is_waiting at) in
      (
        run-Knows i (uses_handle i s.world h k fates i) s.world h k
            (uses_other s.world h k out ∙ know),
        run-Marks i fates s.world h k (Reach-Inv r).front.distinct out marks,
      )
  Move-Agrees at (repeats k) know = (know, marks)
  Move-Agrees at (writes_unlocked f) know = (know, marks)
  Move-Agrees at (re_locks o free) know = (know, marks)
  Move-Agrees at (settles {result} {r = x} e) know =
      let (w, over, eq) = settle-some s.world result e in
      (subst (λ y. Knows i (fates i) y.1) (sym eq) know, unmoved (settles e) refl)
  Move-Agrees at (fails {r = x} free e) know =
      let (w, over, eq) = fail-some i s.world e in
      (subst (λ y. Knows i (fates i) y.1) (sym eq) tt, unmoved (fails free e) refl)
  Move-Agrees at (clears_unlocked {h} {k} free e) know =
      (know, unmoved (clears_unlocked {h = h} {k = k} free e) refl)
  Move-Agrees at (asks free e) know = (tt, unmoved (asks free e) refl)
  Move-Agrees at (asserts_unlocked e) know = (know, marks)
  Move-Agrees at (asks_unlocked {h} {k} {r = x} free e) know =
      (know, unmoved (asks_unlocked {h = h} {k = k} {r = x} free e) refl)
  Move-Agrees at (clears free e) know = (tt, unmoved (clears free e) refl)
  Move-Agrees at _ know = (tt, marks)

  reaches-other : (p : Pc c) (j : ℕ) → i ≢ j → reaches i p fates j ≡ fates j
  reaches-other (running h k) j ne = update_ne fates i j Fate.ran ne
  reaches-other _ j ne = refl

  uses_waiting :
      (h : QueueHandle) (k : Callback c) (j : ℕ)
      → (uses_handle i s.world h k fates j ≡ fates j) ⊎ (is_waiting (s.pc j) ≡ true)
  uses_waiting h (Callback.pop k) j =
      elim (Option-cases (get_elem? (exclusive s.world).queue h.next_idx)) [
        | inl e ↦ inl (ap (λ o. pops_task i o fates j) e)
        | inr (t, e) ↦ elim (ℕ_discrete t.state j) [
          | no ne ↦
              inl (
                ap (λ o. pops_task i o fates j) e ∙ update_ne fates t.state j (Fate.popped_by i) ne)
          | yes own ↦ inr (
              ap (λ x. is_waiting (s.pc x)) (sym own)
              ∙ sym ((Reach-Inv r).front.queued t.state)
              ∙ get-owner h.next_idx (exclusive s.world).queue t e)
        ]
      ]
  uses_waiting h _ j = inl refl

  -- What a move decides of another thread's value concerns a thread that waits.
  pub decides_other :
      {w : World c} {p p' : Pc c} (m : Move addr i s.world p w p') (j : ℕ)
      → i ≢ j
      → (decides m fates j ≡ fates j) ⊎ (is_waiting (s.pc j) ≡ true)
  decides_other (calls v task) j ne = inl (update_ne fates i j Fate.undecided ne)
  decides_other (passes_guard v task) j ne = inl (update_ne fates i j Fate.undecided ne)
  decides_other (enters {v} {task}) j ne =
      inl (reaches-other (process addr i s.world v task).1 j ne)
  decides_other (resumes {r = x} free live awake turn e) j ne = inl (reaches-other x.1 j ne)
  decides_other (runs {h} {k}) j ne = uses_waiting h k j
  decides_other _ j ne = inl refl
