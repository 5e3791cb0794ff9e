-- ===== src/Finish/Moves.antt =====
-- What a move of another thread does to the line in which thread `i` waits.
use contention_queue.Prelude.{
  update-cases, ℕ, ◌≡◌, ◌≢◌, refl, sym, subst, ap, ◌∙◌, true, false, Option, some, List, [], ◌∷◌,
  ◌++◌, update, arith,
}
use contention_queue.Interface.{Client}
use contention_queue.World.{World, Pc, failing}
use contention_queue.TaskState.{TaskState}
use contention_queue.QueueState.{MutexExclusive}
use contention_queue.System.{System, Move, here, next, pick, later, Steps-append}
use contention_queue.Shape.{owners, owns}
use contention_queue.Shape.Owners.{owners-append}
use contention_queue.Invariant.{is_waiting}
use contention_queue.Invariant.Lock.{LockEffect}
use contention_queue.Invariant.Front.{FrontEffect}
use contention_queue.Invariant.Moves.{Reach-Inv, Move-Effect}
use contention_queue.Finish.{Calm, ahead, Line, Gets}

-- A task at the back does not come in front of one that is there.
pub ahead-append : (i x : ℕ) (xs : List ℕ) → owns i xs ≡ true → ahead i (xs ++ x ∷ []) ≡ ahead i xs
ahead-append i x [] h = absurd (ground arith)
ahead-append i x (y ∷ xs) h = ground (arith, ahead-append i x xs)

-- A move of one thread gives the lock to no other.
pub holder-before :
    {c : Client} {h h' : Option ℕ} {p p' : Pc c} (j k : ℕ)
    → LockEffect j h p h' p'
    → k ≢ j
    → h' ≡ some k
    → h ≡ some k
holder-before j k (LockEffect.keeps e l f) ne at = sym e ∙ at
holder-before j k (LockEffect.leaks e l f) ne at = sym e ∙ at
holder-before j k (LockEffect.takes e e' l) ne at = absurd (ground arith)
holder-before j k (LockEffect.drops l e l') ne at = absurd (ground arith)
holder-before j k (LockEffect.visits e e' l) ne at = absurd (ground arith)

pub place-stays :
    {c : Client} {j : ℕ} {q q' : MutexExclusive c.Value} {f f' : ℕ → Option TaskState} {p p' : Pc c}
    (i : ℕ)
    → FrontEffect j q f p q' f' p'
    → is_waiting p ≡ false
    → owns i (owners q.queue) ≡ true
    → ahead i (owners q'.queue) ≡ ahead i (owners q.queue)
place-stays i (FrontEffect.stays l o fr hf wp e po) out own = ap (ahead i) o
place-stays i (FrontEffect.stirs s s' e fi fr st aw wp pe) out own = absurd (ground arith)
place-stays i (FrontEffect.acquires l l' e fr o hf wp cu) out own = ap (λ x. ahead i (owners x)) e
place-stays {q = q} i (FrontEffect.pushes t s l l' e ts hv fr st o hf wp) out own =
    ap (λ x. ahead i (owners x)) e
    ∙ ap (ahead i) (owners-append q.queue (t ∷ []))
    ∙ ahead-append i t.state (owners q.queue) own
place-stays i (FrontEffect.resumes s t rest fi w l e e' fr wp hf wp' cu cu') out own =
    absurd (ground arith)
place-stays i (FrontEffect.releases e e' l fr hf o) out own =
    ap (λ x. ahead i (owners x)) (e' ∙ sym e)
place-stays i (FrontEffect.grants s s' t rest e e' l fi fr wk hf o) out own =
    ap (λ x. ahead i (owners x)) e'

module _ {c : Client} {addr i n : ℕ} {s : System c} (line : Line addr i n s) (j : ℕ) where
  pub others_sound :
      {w : World c} {p : Pc c}
      → Move addr j s.world (s.pc j) w p
      → (w.mutex.holder ≡ some j → p ≢ failing)
      → (k : ℕ) → w.mutex.holder ≡ some k
      → update s.pc j p k ≢ failing
  others_sound {w} {p} m own =
      update-cases s.pc j (λ k q. w.mutex.holder ≡ some k → q ≢ failing) p own
        (λ k ne held. line.sound k (
          holder-before j k (Move-Effect (Reach-Inv line.reach).front refl m).lock (λ e. ne (sym e))
            held))

  pub others_calm : (p : Pc c) → Calm p → (k : ℕ) → Calm (update s.pc j p k)
  others_calm p calm = update-cases s.pc j (λ k q. Calm q) p calm (λ k ne. line.calm k)

  -- A move of a thread that does not wait.
  Line-Move :
      {w : World c} {p : Pc c}
      → Move addr j s.world (s.pc j) w p
      → is_waiting (s.pc j) ≡ false
      → Calm p
      → p ≢ failing
      → Line addr i n (record { world = w; pc = update s.pc j p })
  Line-Move {w} {p} m out calm fine =
      let inv = Reach-Inv line.reach in
      let effect = Move-Effect inv.front refl m in
      record {
        reach = later line.reach (pick j m);
        calm = others_calm p calm;
        sound = others_sound m (λ _. fine);
        waits = still_waits;
        place = place-stays i effect.front out (inv.front.queued i ∙ line.waits) ∙ line.place;
      }
    where
      still_waits : is_waiting (update s.pc j p i) ≡ true
      still_waits = ground (arith, line.waits)

  pub moves_on :
      {Q : System c → Type 0} {w : World c} {p p' : Pc c}
      → s.pc j ≡ p
      → Move addr j s.world p w p'
      → is_waiting p ≡ false
      → Calm p'
      → p' ≢ failing
      → (Line addr i n (record { world = w; pc = update s.pc j p' })
          → Gets addr i n (record { world = w; pc = update s.pc j p' }) Q)
      → Gets addr i n s Q
  moves_on {w = w} {p' = p'} at m out calm fine rest =
      let m' = subst (λ x. Move addr j s.world x w p') (sym at) m in
      let after = rest (Line-Move m' (ap is_waiting at ∙ out) calm fine) in
      record {
        last = after.last;
        steps = Steps-append (next here (pick j m')) after.steps;
        line = after.line;
        meets = after.meets;
      }

pub Gets-append :
    {c : Client} {addr i n : ℕ} {s : System c} {P Q : System c → Type 0}
    → Gets addr i n s P
    → ((t : System c) → Line addr i n t → P t → Gets addr i n t Q)
    → Gets addr i n s Q
Gets-append first more =
    let second = more first.last first.line first.meets in
    record {
      last = second.last;
      steps = Steps-append first.steps second.steps;
      line = second.line;
      meets = second.meets;
    }
