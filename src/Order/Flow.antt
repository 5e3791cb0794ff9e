-- ===== src/Order/Flow.antt =====
-- What one move does to the values in the queue.
use mathlib.Core.List.{append-nil}
use contention_queue.Prelude.{
  ℕ, zero, suc, ◌≡◌, refl, sym, subst, ◌∙◌, inl, inr, Bool, false, Option, some, List, [], ◌∷◌,
  ◌++◌, get_elem?, set, arith, Option-cases,
}
use contention_queue.Interface.{Client, Callback, ProcessTask}
use contention_queue.Task.{ErasedTask, take}
use contention_queue.Shape.{NoValue, Popped}
use contention_queue.Shape.Values.{Popped-get}
use contention_queue.Handle
use contention_queue.Handle.{QueueHandle, expect}
use contention_queue.Handle.Values.{HasValue-some}
use contention_queue.Queue.{push_task}
use contention_queue.World.{World, exclusive, Pc}
use contention_queue.Process.{process, start_waiting, unwind, resume}
use contention_queue.Process.Paths.{process-paths}
use contention_queue.Process.Resume.{after_pop, resume-some, after_wait-cases}
use contention_queue.Order.{listed, values, first, answered, submitted, taken}

module _ {ℓ} {V : Type ℓ} where
  pub values-push :
      (q : List (ErasedTask V)) (t : ErasedTask V)
      → values (q ++ t ∷ []) ≡ values q ++ listed t.value
  values-push [] t = ground arith
  values-push (x ∷ q) t = ground (arith, values-push q t)

  pub values-first :
      (t : ErasedTask V) (q : List (ErasedTask V)) → listed t.value ++ values q ≡ values (t ∷ q)
  values-first t q = ground arith

  -- The handle takes the first of the values that are left.
  pub values-set :
      (k : ℕ) (q : List (ErasedTask V)) (t u : ErasedTask V)
      → Popped k q
      → get_elem? q k ≡ some t
      → NoValue u.value
      → listed t.value ++ values (set q k u) ≡ values q
  values-set k [] t u p e n = absurd (ground arith)
  values-set zero (x ∷ q) t u p e n = ground arith
  values-set (suc k) (x ∷ q) t u p e n = ground (arith, values-set k q t u p.1 e n)

module _ {c : Client} (w : World c) where
  -- Through the handle, values leave in the order in which they stand.
  pub pop-flow :
      (h : QueueHandle) (k : Option c.Value → Callback c)
      → Popped h.next_idx (exclusive w).queue
      → answered (Handle.pop h (exclusive w)).0 ++ values (Handle.pop h (exclusive w)).2.queue
        ≡ values (exclusive w).queue ++ []
  unfolding Handle.pop expect take
  pop-flow h k p = elim (Option-cases (get_elem? (exclusive w).queue h.next_idx)) [
    | inl e ↦ ground (arith, append-nil (values (exclusive w).queue))
    | inr (t, e) ↦
        let found = HasValue-some t.value (Popped-get h.next_idx (exclusive w).queue t p e) in
        ground (
          arith,
          found.1,
          append-nil (values (exclusive w).queue),
          values-set h.next_idx (exclusive w).queue t (take t).1 p e tt,
        )
  ]

  -- The flow of a call that submits `v`.
  abbrev pub Submits : c.Value → World c × Pc c → Type 0
  Submits v r =
      taken v r.1 ++ values (exclusive r.0).queue ≡ values (exclusive w).queue ++ submitted v r.1

  pub process-flow :
      (addr i : ℕ) (v : c.Value) (task : ProcessTask c)
      → ((exclusive w).front_locked ≡ false → (exclusive w).queue ≡ [])
      → Submits v (process addr i w v task)
  unfolding start_waiting push_task unwind
  process-flow addr i v task empty =
      process-paths (Submits v) i w v task addr (λ _. sym (append-nil (values (exclusive w).queue)))
        (λ a e l. values-push (exclusive w).queue _) (λ a e l. at_once (empty l))
        (λ a e l. at_once (empty l))
    where
      at_once :
          (exclusive w).queue ≡ []
          → v ∷ values (exclusive w).queue ≡ values (exclusive w).queue ++ v ∷ []
      at_once none_wait = rw none_wait refl

  pub resume-flow :
      (i : ℕ) (task : ProcessTask c) (b : Bool) (r : World c × Pc c)
      → resume i w task b ≡ some r
      → first (exclusive w).queue ++ values (exclusive r.0).queue ≡ values (exclusive w).queue ++ []
  unfolding unwind
  resume-flow i task b r e =
      let (t, rest, eq, er) = resume-some i w task b e in
      let flow : first (exclusive w).queue ++ values rest ≡ values (exclusive w).queue ++ [] =
        subst (λ q. first q ++ values rest ≡ values q ++ []) (sym eq)
          (values-first t rest ∙ sym (append-nil (values (t ∷ rest)))) in
      subst
        (λ (x : World c × Pc c).
          first (exclusive w).queue ++ values (exclusive x.0).queue
          ≡ values (exclusive w).queue ++ [])
        (sym er)
        (after_wait-cases
          (λ x.
            first (exclusive w).queue ++ values (exclusive x.0).queue
            ≡ values (exclusive w).queue ++ [])
          (after_pop i w task b rest) task t.value b flow (λ _ _. flow) (λ _ _. flow))
