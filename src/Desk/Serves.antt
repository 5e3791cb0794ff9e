-- ===== src/Desk/Serves.antt =====
-- What the moves of a call that comes do at the desk: it joins the line or walks up.
use contention_queue.Prelude.{
  update-cases, ℕ, ◌≡◌, refl, sym, subst, ap, ◌∙◌, true, false, none, some, [], ◌∷◌, ◌++◌, update,
  update_self, arith,
}
use contention_queue.Interface.{Client}
use contention_queue.Task.{ErasedTask, erase}
use contention_queue.QueueState.{MutexExclusive}
use contention_queue.Queue.{push_task}
use contention_queue.World.{Pc, exclusive}
use contention_queue.System.{System, Reach}
use contention_queue.Invariant.{has_front}
use contention_queue.Invariant.Front.Moved.{true-ne-false, eq-false_of_ne}
use contention_queue.Safety.{front_exclusion}
use contention_queue.Desk.{
  Desk, Act, Serve, idles, walks_up, joins, entry, entries, Stands, vacant, serving, called_up,
}
use contention_queue.Desk.Keeps.{entries-append, Stands-keeps}

-- An act of thread `i` leads from a desk to one that a state stands for.
pub record Follows {c : Client} (i : ℕ) (a : Act c.Value) (d₀ : Desk c.Value)
    (q : MutexExclusive c.Value) (pc : ℕ → Pc c) : Type 0 where
  pub desk : Desk c.Value
  pub served : Serve i a d₀ desk
  pub stands : Stands q pc desk

pub serves :
    {V : Type 0} {i : ℕ} {a : Act V} {d₀ d e : Desk V} → d₀ ≡ d → Serve i a d e → Serve i a d₀ e
serves {i = i} {a} {e = e} same step = subst (λ x. Serve i a x e) (sym same) step

-- Once the thread with the permission has left, no thread has it.
pub nobody_left :
    {c : Client} {addr : ℕ} {s : System c} (r : Reach addr s) (i : ℕ) (p' : Pc c)
    → has_front (s.pc i) ≡ true
    → has_front p' ≡ false
    → (k : ℕ) → has_front (update s.pc i p' k) ≡ false
nobody_left {s = s} r i p' front out =
    update-cases s.pc i (λ k q. has_front q ≡ false) p' out
      (λ k ne. eq-false_of_ne (λ other. ne (front_exclusion r i k front other).0))

module _ {c : Client} {addr : ℕ} {s : System c} {d₀ : Desk c.Value} (r : Reach addr s) (i : ℕ)
    (p' : Pc c) where
  pub keeps_desk :
      {q' : MutexExclusive c.Value}
      → Stands (exclusive s.world) s.pc d₀
      → q'.front_locked ≡ (exclusive s.world).front_locked
      → q'.queue ≡ (exclusive s.world).queue
      → has_front p' ≡ has_front (s.pc i)
      → Follows i Act.nothing d₀ q' (update s.pc i p')
  keeps_desk f l e hf = record {
    desk = d₀;
    served = idles;
    stands = Stands-keeps i p' refl l e hf f;
  }

  pub joins_desk :
      (v : c.Value)
      → Stands (exclusive s.world) s.pc d₀
      → (exclusive s.world).front_locked ≡ true
      → has_front (s.pc i) ≡ false
      → has_front p' ≡ false
      → Follows i (Act.comes v) d₀ (push_task i v (exclusive s.world)) (update s.pc i p')
  unfolding push_task
  joins_desk v f l before after = go refl f
    where
      q : MutexExclusive c.Value
      q = exclusive s.world

      t : ErasedTask c.Value
      t = erase (record { state = i; value = some v })

      go :
          {d : Desk c.Value}
          → d₀ ≡ d
          → Stands (exclusive s.world) s.pc d
          → Follows i (Act.comes v) d₀ (push_task i v (exclusive s.world)) (update s.pc i p')
      go served (vacant free empty) = absurd (true-ne-false l free)
      go served (serving h own) = record {
        desk = _;
        served =
            subst (λ x. Serve i (Act.comes v) d₀ (record { front = some (h, none); line = x }))
              (sym (entries-append q.queue t)) (serves served joins);
        stands = serving h (ground (arith, before));
      }
      go served (called_up u rest taken first nobody) = record {
        desk = _;
        served =
            subst (λ x. Serve i (Act.comes v) d₀ (record { front = some (entry u); line = x }))
              (sym (entries-append rest t)) (serves served joins);
        stands =
            called_up u (rest ++ t ∷ []) l (ap (λ x. x ++ t ∷ []) first)
              (λ j. ground (arith, nobody j));
      }

  pub walks_up_desk :
      {q' : MutexExclusive c.Value} (v : c.Value)
      → Stands (exclusive s.world) s.pc d₀
      → (exclusive s.world).front_locked ≡ false
      → q'.queue ≡ (exclusive s.world).queue
      → has_front p' ≡ true
      → Follows i (Act.comes v) d₀ q' (update s.pc i p')
  walks_up_desk {q'} v f free e after = go refl f
    where
      go :
          {d : Desk c.Value}
          → d₀ ≡ d
          → Stands (exclusive s.world) s.pc d
          → Follows i (Act.comes v) d₀ q' (update s.pc i p')
      go served (vacant l empty) = record {
        desk = _;
        served =
            subst
              (λ x. Serve i (Act.comes v) d₀ (record { front = some (i, none); line = entries x }))
              (sym (e ∙ empty)) (serves served walks_up);
        stands = serving i (ap has_front (update_self s.pc i p') ∙ after);
      }
      go served (serving h own) = absurd (true-ne-false (front_exclusion r h h own own).1 free)
      go served (called_up u rest taken first nobody) = absurd (true-ne-false taken free)
