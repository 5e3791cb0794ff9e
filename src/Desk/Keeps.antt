-- ===== src/Desk/Keeps.antt =====
-- The desk under moves that do not concern it, and where the thread with the permission stands.
use contention_queue.Prelude.{
  ℕ, zero, suc, ◌≡◌, refl, sym, subst, ap, ◌∙◌, true, Option, none, some, List, [], ◌∷◌, ◌++◌,
  get_elem?, set, update, arith,
}
use contention_queue.Interface.{Client}
use contention_queue.Task.{ErasedTask, take}
use contention_queue.QueueState.{MutexExclusive}
use contention_queue.World.{Pc, exclusive}
use contention_queue.System.{System, Reach}
use contention_queue.Shape.{Popped, NoValue}
use contention_queue.Invariant.{has_front}
use contention_queue.Invariant.Front.Moved.{true-ne-false}
use contention_queue.Safety.{front_exclusion}
use contention_queue.Desk.{
  Desk, TakesFirst, AllTaken, at_once, further, entry, entries, Stands, vacant, serving, called_up,
}

pub entries-append :
    {V : Type 0} (q : List (ErasedTask V)) (t : ErasedTask V)
    → entries (q ++ t ∷ []) ≡ entries q ++ entry t ∷ []
entries-append [] t = refl
entries-append (x ∷ q) t = ap (◌∷◌ (entry x)) (entries-append q t)

NoValue-none : {V : Type 0} (o : Option V) → NoValue o → o ≡ none
NoValue-none none h = refl
NoValue-none (some v) h = absurd h

-- A pop of the handle takes the first value of the line.
pub entries-set :
    {V : Type 0} (k : ℕ) (q : List (ErasedTask V)) (t : ErasedTask V) (v : V)
    → Popped k q
    → get_elem? q k ≡ some t
    → t.value ≡ some v
    → TakesFirst (entries q) v (entries (set q k (take t).1))
unfolding take
entries-set k [] t v p e has = absurd (ground arith)
entries-set zero (x ∷ q) t v p e has =
    let same : x ≡ t = cc in
    subst (λ y. TakesFirst (entry y ∷ entries q) v ((t.state, none) ∷ entries q)) (sym same)
      (subst (λ o. TakesFirst ((t.state, o) ∷ entries q) v ((t.state, none) ∷ entries q)) (sym has)
        at_once)
entries-set (suc k) (x ∷ q) t v p e has =
    let rest = set q k (take t).1 in
    subst (λ o. TakesFirst ((x.state, o) ∷ entries q) v ((x.state, o) ∷ entries rest))
      (sym (NoValue-none x.value p.0)) (further (entries-set k q t v p.1 e has))

-- A handle that finds no task has taken every value.
pub entries-AllTaken :
    {V : Type 0} (k : ℕ) (q : List (ErasedTask V))
    → Popped k q
    → get_elem? q k ≡ none
    → AllTaken (entries q)
entries-AllTaken zero [] p e = tt
entries-AllTaken zero (x ∷ q) p e = absurd (ground arith)
entries-AllTaken (suc k) [] p e = tt
entries-AllTaken (suc k) (x ∷ q) p e = (NoValue-none x.value p.0, entries-AllTaken k q p.1 e)

module _ {c : Client} {q q' : MutexExclusive c.Value} {pc : ℕ → Pc c} where
  -- A move of a thread that leaves the queue and the permission alone.
  pub Stands-keeps :
      {d : Desk c.Value} {p : Pc c} (i : ℕ) (p' : Pc c)
      → pc i ≡ p
      → q'.front_locked ≡ q.front_locked
      → q'.queue ≡ q.queue
      → has_front p' ≡ has_front p
      → Stands q pc d
      → Stands q' (update pc i p') d
  Stands-keeps {p = p} i p' at l e hf (vacant free none_left) = vacant (l ∙ free) (e ∙ none_left)
  Stands-keeps {p = p} i p' at l e hf (serving h own) =
      subst (λ x. Stands q' (update pc i p') (record { front = some (h, none); line = entries x }))
        e (serving h (ground (arith, ap has_front at)))
  Stands-keeps {p = p} i p' at l e hf (called_up t rest taken first nobody) =
      called_up t rest (l ∙ taken) (e ∙ first) (λ j. ground (arith, nobody j, ap has_front at))

module _ {c : Client} {addr : ℕ} {s : System c} (r : Reach addr s) (i : ℕ) where
  -- The thread with the permission is the one that is served.
  pub served_front :
      {d : Desk c.Value}
      → has_front (s.pc i) ≡ true
      → Stands (exclusive s.world) s.pc d
      → d ≡ record { front = some (i, none); line = entries (exclusive s.world).queue }
  served_front own (vacant free none_left) =
      absurd (true-ne-false (front_exclusion r i i own own).1 free)
  served_front own (serving h other) =
      ap (λ x. record { front = some (x, none); line = entries (exclusive s.world).queue })
        (front_exclusion r h i other own).0
  served_front own (called_up t rest taken first nobody) = absurd (true-ne-false own (nobody i))
