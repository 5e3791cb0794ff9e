-- ===== src/Finish/Ends.antt =====
-- The thread with the front permission, or with the lock, can go on until it has neither.
use contention_queue.Prelude.{
  update-cases, ℕ, ◌≡◌, refl, subst, ap, ◌∙◌, true, false, Option, none, some, update, update_self,
  arith,
}
use contention_queue.Interface.{Client, Callback, ProcessResult}
use contention_queue.Poisoning.{Outcome, value, drop_guard}
use contention_queue.Handle.{QueueHandle}
use contention_queue.Handle.Values.{peek_returns, pop-keeps}
use contention_queue.World.{World, Pc, exclusive, running, settling, failing, returned, panicked}
use contention_queue.Process.HandOver.{settle-some, fail-some}
use contention_queue.Run.{run_callback, answer, unlock, re_lock}
use contention_queue.System.{System, Move, here, runs, re_locks, settles, fails, drops}
use contention_queue.Invariant.{has_front}
use contention_queue.Invariant.Moves.{Reach-Inv, handle-Popped}
use contention_queue.Invariant.Front.Moved.{eq-false_of_ne}
use contention_queue.Safety.{front_exclusion}
use contention_queue.Safety.Memory.{hands_over}
use contention_queue.Finish.{Finishes, Line, Gets}
use contention_queue.Finish.Moves.{moves_on}

module _ {c : Client} where
  -- Thread `j` is in the `Ok` branch.
  abbrev pub Settles : ℕ → System c → Type 0
  Settles j s = (r : ProcessResult c.Return) × (s.pc j ≡ settling r)

  -- Nobody holds the lock, and no thread has the front permission.
  abbrev pub Free : System c → Type 0
  Free s = (s.world.mutex.holder ≡ none) × ((k : ℕ) → has_front (s.pc k) ≡ false)

-- A use of the handle that gives a value, without a panic.
answered-Move :
    {c : Client} {addr j : ℕ} {w w' : World c} {h : QueueHandle} {k : Callback c}
    {a : Outcome (Option c.Value)} {o : Option c.Value} (h' : QueueHandle)
    (k' : Option c.Value → Callback c)
    → a ≡ value o
    → Move addr j w (running h k) (answer w' h' k' a).0 (answer w' h' k' a).1
    → Move addr j w (running h k) w' (running h' (k' o))
answered-Move {addr = addr} {j} {w} {w'} {h} {k} h' k' e m =
    subst (λ x. Move addr j w (running h k) (answer w' h' k' x).0 (answer w' h' k' x).1) e m

module _ {c : Client} {addr i n : ℕ} (j : ℕ) where
  -- A callback that neither panics nor loops comes to its end.
  pub runs_out :
      (k : Callback c) {s : System c} (h : QueueHandle)
      → Finishes k
      → Line addr i n s
      → s.pc j ≡ running h k
      → Gets addr i n s (Settles j)
  unfolding run_callback unlock re_lock drop_guard
  runs_out (Callback.return r) {s} h never line at =
      moves_on line j at runs refl tt (λ e. cc)
        (λ line'. record {
          last = _;
          steps = here;
          line = line';
          meets = (ProcessResult.processed r, update_self s.pc j _);
        })
  runs_out Callback.panic h never line at = absurd never
  runs_out Callback.again h never line at = absurd never
  runs_out (Callback.peek k) {s} h never line at =
      let shape = handle-Popped s.world j (Reach-Inv line.reach).front at in
      let (o, e) = peek_returns h (exclusive s.world) shape in
      moves_on line j at (answered-Move h k e runs) refl (never o) (λ e. cc)
        (λ line'. runs_out (k o) h (never o) line' (update_self s.pc j _))
  runs_out (Callback.pop k) {s} h never line at =
      let shape = handle-Popped s.world j (Reach-Inv line.reach).front at in
      let got = pop-keeps h (exclusive s.world) shape in
      moves_on line j at (answered-Move _ k (ap (λ x. x.0) got.3) runs) refl (never got.0) (λ e. cc)
        (λ line'. runs_out (k got.0) _ (never got.0) line' (update_self s.pc j _))
  runs_out (Callback.mutex_state k) {s} h never line at =
      moves_on line j at runs refl (never _) (λ e. cc)
        (λ line'. runs_out (k _) h (never _) line' (update_self s.pc j _))
  runs_out (Callback.set_mutex_state m k) {s} h never line at =
      moves_on line j at runs refl never (λ e. cc)
        (λ line'. runs_out k h never line' (update_self s.pc j _))
  runs_out (Callback.front_state k) {s} h never line at =
      moves_on line j at runs refl (never _) (λ e. cc)
        (λ line'. runs_out (k _) h (never _) line' (update_self s.pc j _))
  runs_out (Callback.set_front_state f k) {s} h never line at =
      moves_on line j at runs refl never (λ e. cc)
        (λ line'. runs_out k h never line' (update_self s.pc j _))
  runs_out (Callback.unlocked k) {s} h never line at =
      moves_on line j at runs refl never (λ e. cc)
        (λ line'.
          moves_on line' j (update_self s.pc j _) (re_locks none refl) refl (never none) (λ e. cc)
            (λ line''. runs_out (k none) h (never none) line'' (update_self (update s.pc j _) j _)))
  runs_out (Callback.is_queue_poisoned k) {s} h never line at =
      moves_on line j at runs refl (never _) (λ e. cc)
        (λ line'. runs_out (k _) h (never _) line' (update_self s.pc j _))
  runs_out (Callback.clear_queue_poison k) {s} h never line at =
      moves_on line j at runs refl never (λ e. cc)
        (λ line'. runs_out k h never line' (update_self s.pc j _))

  -- Once the thread with the permission stands outside, no thread has it.
  nobody :
      {s : System c} (p : Pc c)
      → Line addr i n s
      → has_front (s.pc j) ≡ true
      → has_front p ≡ false
      → (k : ℕ) → has_front (update s.pc j p k) ≡ false
  nobody {s} p line front out =
      update-cases s.pc j (λ k q. has_front q ≡ false) p out
        (λ k ne. eq-false_of_ne (λ other. ne (front_exclusion line.reach j k front other).0))

  -- The `Ok` branch of `process_unchecked` comes to its end, and so does the call.
  pub ends_settling : {s : System c} → Line addr i n s → Settles j s → Gets addr i n s Free
  unfolding drop_guard
  ends_settling {s} line (r, at) =
      let (x, e) = (hands_over line.reach j r).0 in
      let (w, over, eq) = settle-some s.world r e in
      let front = ap has_front at in
      moves_on line j at (settles (e ∙ ap some eq)) refl tt (λ x. cc)
        (λ line'.
          moves_on line' j (update_self s.pc j _) drops refl tt (λ x. cc)
            (λ line''. record {
              last = _;
              steps = here;
              line = line'';
              meets = (refl, λ k. ground (arith, nobody (returned r) line front refl k));
            }))

  -- The `Err` branch of `process_unchecked` comes to its end, if it gets the lock.
  pub ends_failing :
      {s : System c}
      → Line addr i n s
      → s.world.mutex.holder ≡ none
      → s.pc j ≡ failing
      → Gets addr i n s Free
  unfolding drop_guard
  ends_failing {s} line free at =
      let (x, e) = (hands_over line.reach j ProcessResult.processed_elsewhere).1 in
      let (w, over, eq) = fail-some j s.world e in
      moves_on line j at (fails free (e ∙ ap some eq)) refl tt (λ x. cc)
        (λ line'. record {
          last = _;
          steps = here;
          line = line';
          meets = (refl, nobody panicked line (ap has_front at) refl);
        })
