-- ===== src/Order/Own.antt =====
-- Whose value each queued task holds.
use contention_queue.Prelude.{
  ℕ, zero, suc, ◌≡◌, ◌≢◌, refl, sym, subst, ap, ◌∙◌, false, true, arith, Option, none, some, List,
  [], ◌∷◌, ◌++◌, get_elem?, set, update, update_self, update_ne,
}
use contention_queue.Interface.{Client, Callback}
use contention_queue.Poisoning.{Outcome, value, panics, ignore_poison, lock}
use contention_queue.TaskState.{TaskState}
use contention_queue.Task.{ErasedTask, take, erase}
use contention_queue.Shape.{owners, owns}
use contention_queue.Handle
use contention_queue.Handle.{QueueHandle}
use contention_queue.World.{World, Pc, exclusive, set_exclusive, set_mutex, calling, entering}
use contention_queue.Process.{start_waiting, unwind}
use contention_queue.Process.Paths.{process-paths, resume-paths}
use contention_queue.Process.Branches.{lock_and_process-cases}
use contention_queue.Process.HandOver.{settle-some, fail-some}
use contention_queue.Run.{run_callback, answer, unlock, re_lock}
use contention_queue.System.{
  Move, calls, passes_guard, locks, enters, resumes, runs, settles, fails,
}
use contention_queue.Invariant.{is_waiting, FrontInv}
use contention_queue.Order.Change.{QueueChange, same, joined, left, emptied, Move-change}

-- A value that is still there is the one that was asked for.
abbrev pub Belongs : {V : Type 0} → Option V → Option V → Type 0
Belongs {V} asked held = (v : V) → held ≡ some v → asked ≡ some v

abbrev pub Owned : {V : Type 0} → (ℕ → Option V) → List (ErasedTask V) → Type 0
Owned asked [] = Unit
Owned asked (t ∷ q) = Belongs (asked t.state) t.value × Owned asked q

module _ {V : Type 0} (asked : ℕ → Option V) where
  Owned-append :
      (q : List (ErasedTask V)) (t : ErasedTask V)
      → Belongs (asked t.state) t.value
      → Owned asked q
      → Owned asked (q ++ t ∷ [])
  Owned-append [] t b own = (b, tt)
  Owned-append (x ∷ q) t b own = (own.0, Owned-append q t b own.1)

  Owned-set :
      (k : ℕ) (q : List (ErasedTask V)) (t : ErasedTask V)
      → t.value ≡ none
      → Owned asked q
      → Owned asked (set q k t)
  Owned-set k [] t gone own = tt
  Owned-set zero (x ∷ q) t gone own = (λ v e. absurd (ground arith), own.1)
  Owned-set (suc k) (x ∷ q) t gone own = (own.0, Owned-set k q t gone own.1)

  pub Owned-get :
      (k : ℕ) (q : List (ErasedTask V)) (t : ErasedTask V)
      → get_elem? q k ≡ some t
      → Owned asked q
      → Belongs (asked t.state) t.value
  Owned-get k [] t e own = absurd (ground arith)
  Owned-get zero (x ∷ q) t e own =
      let same : x ≡ t = ground arith in
      subst (λ (y : ErasedTask V). Belongs (asked y.state) y.value) same own.0
  Owned-get (suc k) (x ∷ q) t e own = Owned-get k q t e own.1

  -- A thread without a task in the queue may ask for another value.
  Owned-update :
      (i : ℕ) (o : Option V) (q : List (ErasedTask V))
      → owns i (owners q) ≡ false
      → Owned asked q
      → Owned (update asked i o) q
  Owned-update i o [] out own = tt
  Owned-update i o (x ∷ q) out own =
      let other : i ≢ x.state = λ e. ground arith in
      let rest : owns i (owners q) ≡ false = ground arith in
      (λ v e. update_ne asked i x.state o other ∙ own.0 v e, Owned-update i o q rest own.1)

module _ {c : Client} where
  -- A call on its way holds the value that was asked for.
  abbrev pub Brings : Option c.Value → Pc c → Type 0
  Brings asked (calling v task) = asked ≡ some v
  Brings asked (entering v task) = asked ≡ some v
  Brings asked _ = Unit

  -- What the threads ask for after a move: a new call replaces the value of its thread.
  abbrev pub requests :
      {addr i : ℕ} {w w' : World c} {p p' : Pc c}
      → Move addr i w p w' p'
      → (ℕ → Option c.Value)
      → ℕ
      → Option c.Value
  requests {i = i} (calls v task) asked = update asked i (some v)
  requests {i = i} (passes_guard v task) asked = update asked i (some v)
  requests _ asked = asked

  run-Brings :
      (w : World c) (h : QueueHandle) (k : Callback c) (o : Option c.Value)
      → Brings o (run_callback w h k).1
  unfolding run_callback unlock
  run-Brings w h (Callback.pop k) o =
      go (set_exclusive (Handle.pop h (exclusive w)).2 w) (Handle.pop h (exclusive w)).1
        (Handle.pop h (exclusive w)).0
    where
      go :
          (w : World c) (h : QueueHandle) (x : Outcome (Option c.Value))
          → Brings o (answer w h k x).1
      go w h (value x) = tt
      go w h panics = tt
  run-Brings w h (Callback.peek k) o = go (Handle.peek h (exclusive w))
    where
      go : (x : Outcome (Option c.Value)) → Brings o (answer w h k x).1
      go (value x) = tt
      go panics = tt
  run-Brings w h _ o = tt

module _ {c : Client} {i : ℕ} (asked : ℕ → Option c.Value) where
  Change-Owned :
      {p : Pc c} {f : ℕ → Option TaskState} {q q' : List (ErasedTask c.Value)}
      → QueueChange i p f q q'
      → Brings (asked i) p
      → Owned asked q
      → Owned asked q'
  unfolding take erase
  Change-Owned (same e) b own = subst (Owned asked) (sym e) own
  Change-Owned {q} (joined v task at e) b own =
      let brings : asked i ≡ some v = subst (λ (p : Pc c). Brings (asked i) p) at b in
      subst (Owned asked) (sym e) (
        Owned-append asked q (erase (record { state = i; value = some v })) (λ x has. brings ∙ has)
          own)
  Change-Owned (left t task s at live turn e) b own = (subst (Owned asked) e own).1
  Change-Owned {q} (emptied h k t at e eq) b own =
      subst (Owned asked) (sym eq) (Owned-set asked h.next_idx q (take t).1 refl own)

module _ {c : Client} {addr i : ℕ} {w : World c} (asked : ℕ → Option c.Value) where
  pub Move-Brings :
      {w' : World c} {p p' : Pc c} (m : Move addr i w p w' p')
      → Brings (asked i) p
      → Brings (requests m asked i) p'
  unfolding start_waiting unwind re_lock
  Move-Brings (calls v task) b = update_self asked i (some v)
  Move-Brings (passes_guard v task) b = update_self asked i (some v)
  Move-Brings (locks {v} {task} free) b =
      lock_and_process-cases (λ r. Brings (asked i) r.1) i w v task tt b
  Move-Brings (enters {v} {task}) b =
      process-paths (λ r. Brings (asked i) r.1) i w v task addr (λ _. tt) (λ a e l. tt)
        (λ a e l. tt) (λ a e l. tt)
  Move-Brings (runs {h} {k}) b = run-Brings w h k (asked i)
  Move-Brings (resumes {task} {s} {b = turn} {r} free live awake is e) b =
      let w₁ : World c = set_mutex (ignore_poison (lock i w.mutex)) w in
      resume-paths (λ x. Brings (asked i) x.1) i w₁ task turn e (λ t rest q. tt)
        (λ t rest q v has. tt) (λ t rest q result. tt)
  Move-Brings (settles {result} {r} e) b =
      let (w₁, over, eq) = settle-some w result e in subst (λ x. Brings (asked i) x.1) (sym eq) tt
  Move-Brings (fails {r} free e) b =
      let (w₁, over, eq) = fail-some i w e in subst (λ x. Brings (asked i) x.1) (sym eq) tt
  Move-Brings _ b = tt

  pub Move-Owned :
      {w' : World c} {p p' : Pc c} {pc : ℕ → Pc c}
      → FrontInv (exclusive w) w.frames pc
      → pc i ≡ p
      → (m : Move addr i w p w' p') → Brings (asked i) p
      → Owned asked (exclusive w).queue
      → Owned (requests m asked) (exclusive w').queue
  Move-Owned inv at (calls v task) b own =
      Owned-update asked i (some v) (exclusive w).queue (inv.queued i ∙ ap is_waiting at) own
  Move-Owned inv at (passes_guard v task) b own =
      Owned-update asked i (some v) (exclusive w).queue (inv.queued i ∙ ap is_waiting at) own
  Move-Owned inv at m b own = Change-Owned asked (Move-change addr i w m) b own

-- The owner of a task in the queue.
pub get-owner :
    {V : Type 0} (k : ℕ) (q : List (ErasedTask V)) (t : ErasedTask V)
    → get_elem? q k ≡ some t
    → owns t.state (owners q) ≡ true
get-owner k [] t e = absurd (ground arith)
get-owner zero (x ∷ q) t e = ground arith
get-owner (suc k) (x ∷ q) t e = ground (arith, get-owner k q t e)
