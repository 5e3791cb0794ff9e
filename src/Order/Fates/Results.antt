-- ===== src/Order/Fates/Results.antt =====
-- What the result of a call says has happened to its value.
use contention_queue.Prelude.{update-cases, ℕ, ◌≡◌, refl, sym, subst, inl, inr, true, arith, update}
use contention_queue.Interface.{Client, ProcessResult}
use contention_queue.Queue.{new_with_options}
use contention_queue.World.{World, Pc, exclusive, waiting, returned}
use contention_queue.System.{System, Move, Reach, start, later, pick}
use contention_queue.Invariant.{is_waiting}
use contention_queue.Order.Fates.{Fate, Marks, Told, Knows, decides, Decided, begins, continues}
use contention_queue.Order.Fates.Agreement.{Move-Agrees, decides_other}

Decided-Reach :
    {c : Client} {addr : ℕ} {s : System c} {fates : ℕ → Fate} → Decided addr s fates → Reach addr s
Decided-Reach (begins f m options) = start f m options
Decided-Reach (continues i h m) = later (Decided-Reach h) (pick i m)

-- A thread that waits knows nothing of its value.
Knows-waiting : {c : Client} (j : ℕ) (fate : Fate) (p : Pc c) → is_waiting p ≡ true → Knows j fate p
Knows-waiting j fate (waiting task) e = tt
Knows-waiting j fate _ e = absurd (ground arith)

pub record Agreed {c : Client} (s : System c) (fates : ℕ → Fate) : Type 0 where
  pub knows : (j : ℕ) → Knows j (fates j) (s.pc j)
  pub marks : Marks fates (exclusive s.world).queue

Move-Agreed :
    {c : Client} {addr : ℕ} {s : System c} {fates : ℕ → Fate} (i : ℕ) {w : World c} {p : Pc c}
    → Reach addr s
    → (m : Move addr i s.world (s.pc i) w p) → Agreed s fates
    → Agreed (record { world = w; pc = update s.pc i p }) (decides m fates)
Move-Agreed {c} {s = s} {fates} i {w} {p} r m before = record {
  knows =
      update-cases s.pc i (λ j q. Knows j (decides m fates j) q) p now.0
        (λ j ne. elim (decides_other r i fates before.marks m j ne) [
          | inl e ↦ subst (λ x. Knows j x (s.pc j)) (sym e) (before.knows j)
          | inr waits ↦ Knows-waiting j (decides m fates j) (s.pc j) waits
        ]);
  marks = now.1;
}
  where
    now : Knows i (decides m fates i) p × Marks (decides m fates) (exclusive w).queue
    now = Move-Agrees r i fates before.marks refl m (before.knows i)

pub Decided-Agreed :
    {c : Client} {addr : ℕ} {s : System c} {fates : ℕ → Fate}
    → Decided addr s fates
    → Agreed s fates
unfolding new_with_options
Decided-Agreed (begins f m options) = record { knows = λ j. tt; marks = tt }
Decided-Agreed (continues i h m) = Move-Agreed i (Decided-Reach h) m (Decided-Agreed h)

-- In every reachable state, what a call has returned tells what has become of its value: after
-- `Processed` the thread's own callback has run, and after `ProcessedElsewhere` or
-- `ProcessingPanicked` the callback of another thread has popped the value.
pub results_true :
    {c : Client} {addr : ℕ} {s : System c} {fates : ℕ → Fate}
    → Decided addr s fates
    → (i : ℕ) (result : ProcessResult c.Return) → s.pc i ≡ returned result
    → Told i (fates i) result
results_true {fates = fates} h i result at =
    subst (Knows i (fates i)) at ((Decided-Agreed h).knows i)
