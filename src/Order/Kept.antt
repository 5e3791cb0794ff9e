-- ===== src/Order/Kept.antt =====
-- How a value that waits in the queue can leave it.
use contention_queue.Prelude.{
  ℕ, zero, suc, ◌≡◌, ◌⊎◌, refl, sym, ap, ◌∙◌, inl, inr, Option, some, get_elem?, get_elem?-append,
  get_elem?-set_ne, arith, ℕ_discrete,
}
use contention_queue.Interface.{Client, Callback}
use contention_queue.Poisoning.{value}
use contention_queue.Task.{ErasedTask, take}
use contention_queue.QueueState.{MutexExclusive}
use contention_queue.Handle
use contention_queue.Handle.{QueueHandle, expect}
use contention_queue.World.{World, Pc, exclusive, running}
use contention_queue.System.{System, Move, Reach}
use contention_queue.Invariant.{FrontInv, is_waiting}
use contention_queue.Invariant.Moves.{Reach-Inv}
use contention_queue.Invariant.Front.Owner.{front_task-state}
use contention_queue.Order.Change.{QueueChange, same, joined, left, emptied, Move-change}

pop-value :
    {V : Type 0} (h : QueueHandle) (q : MutexExclusive V) (t : ErasedTask V) (v : V)
    → get_elem? q.queue h.next_idx ≡ some t
    → t.value ≡ some v
    → (Handle.pop h q).0 ≡ value (some v)
unfolding Handle.pop expect
pop-value h q t v e has = ground arith

-- What becomes of the task `t`, which holds `v`, in a move of thread `i` at `p`.
abbrev Fate : {c : Client} → ℕ → World c → Pc c → World c → ErasedTask c.Value → c.Value → Type 0
Fate {c} i w p w' t v =
    ((n : ℕ) × (get_elem? (exclusive w').queue n ≡ some t))
    ⊎ ((t.state ≡ i)
        ⊎ ((h : QueueHandle) × (k : Option c.Value → Callback c) × (p ≡ running h (Callback.pop k))
            × ((Handle.pop h (exclusive w)).0 ≡ value (some v))))

module _ {c : Client} {i : ℕ} (w w' : World c) {pc : ℕ → Pc c} where
  Change-Fate :
      {p : Pc c}
      → FrontInv (exclusive w) w.frames pc
      → pc i ≡ p
      → QueueChange i p w.frames (exclusive w).queue (exclusive w').queue
      → (n : ℕ) (t : ErasedTask c.Value) (v : c.Value) → get_elem? (exclusive w).queue n ≡ some t
      → t.value ≡ some v
      → Fate i w p w' t v
  Change-Fate inv at (same e) n t v found has = inl (n, ap (λ q. get_elem? q n) e ∙ found)
  Change-Fate inv at (joined v' task is e) n t v found has =
      inl (n, ap (λ q. get_elem? q n) e ∙ get_elem?-append (exclusive w).queue _ n t found)
  Change-Fate inv at (left u task s is live turn e) zero t v found has =
      let own = front_task-state inv i s u _ live turn (ap is_waiting (at ∙ is)) e in
      let first : u ≡ t = ground arith in
      inr (inl (ap (λ (x : ErasedTask c.Value). x.state) (sym first) ∙ own))
  Change-Fate inv at (left u task s is live turn e) (suc n) t v found has =
      inl (n, sym (ap (λ q. get_elem? q (suc n)) e) ∙ found)
  Change-Fate inv at (emptied h k u is there e) n t v found has = elim (ℕ_discrete h.next_idx n) [
    | yes next ↦
        let here = ap (get_elem? (exclusive w).queue) next ∙ found in
        inr (inr (h, k, is, pop-value h (exclusive w) t v here has))
    | no ne ↦ inl (
      n,
      ap (λ q. get_elem? q n) e
          ∙ get_elem?-set_ne (exclusive w).queue h.next_idx n (take u).1 ne
          ∙ found,
    )
  ]

-- In every reachable state, when a thread moves, each queued task that holds a value stays in the
-- queue with that value, or is the mover's own, or gives the value to a pop of the mover's callback.
pub value_leaves :
    {c : Client} {addr i : ℕ} {s : System c} {w : World c} {p : Pc c}
    → Reach addr s
    → Move addr i s.world (s.pc i) w p
    → (n : ℕ) (t : ErasedTask c.Value) (v : c.Value)
    → get_elem? (exclusive s.world).queue n ≡ some t
    → t.value ≡ some v
    → ((k : ℕ) × (get_elem? (exclusive w).queue k ≡ some t))
      ⊎ ((t.state ≡ i)
          ⊎ ((h : QueueHandle) × (k : Option c.Value → Callback c) × (s.pc i
                ≡ running h (Callback.pop k))
              × ((Handle.pop h (exclusive s.world)).0 ≡ value (some v))))
value_leaves {addr = addr} {i} {s} {w} r m =
    Change-Fate s.world w (Reach-Inv r).front refl (Move-change addr i s.world m)
