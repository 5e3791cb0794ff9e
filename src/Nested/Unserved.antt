-- ===== src/Nested/Unserved.antt =====
-- A use of the queue of src/queue.rs from the inside of one of its callbacks is not served: the
-- callback has the front permission, and keeps it until the use is over.
use contention_queue.Prelude.{
  ℕ, ◌≡◌, ◌≢◌, ◌⊎◌, update_ne, inl, inr, refl, sym, ap, ◌∙◌, true, none, some, update, update-cases,
  arith, Option-cases, subst, some_injective,
}
use contention_queue.Interface.{Client}
use contention_queue.World.{World, Pc, idle}
use contention_queue.Process.{start_waiting, unwind}
use contention_queue.Process.Paths.{process-paths}
use contention_queue.Process.Branches.{lock_and_process-cases}
use contention_queue.Safety.Progress.{resume-front}
use contention_queue.System.{
  System, Move, client_lock, locks, enters, asks, clears, resumes, Reach, pick, later,
}
use contention_queue.Invariant.{has_front}
use contention_queue.Safety.{front_exclusion}
use contention_queue.Safety.Peaceful.{is_running}
use contention_queue.Invariant.Moves.{Reach-Inv}
use contention_queue.Nested.{
  Nest, in_callback, is_unserved, is_kept_out, Goes, moves, leaves, Nested, begins, goes,
  nested_reach,
}

module _ {c : Client} where
  pub in_callback-has_front : (p : Pc c) → in_callback p ≡ true → has_front p ≡ true
  in_callback-has_front p at = ground (arith, at)

  -- A use of the queue that is not served is so after its next move, or has got the permission.
  Move-unserved :
      {addr i : ℕ} {w w' : World c} {p p' : Pc c}
      → Move addr i w p w' p'
      → is_unserved p ≡ true
      → (is_unserved p' ≡ true) ⊎ (has_front p' ≡ true)
  unfolding start_waiting unwind
  Move-unserved {i = i} {w} (locks {v} {task} free) at =
      inl (lock_and_process-cases (λ r. is_unserved r.1 ≡ true) i w v task refl refl)
  Move-unserved {addr} {i} {w} (enters {v} {task}) at =
      process-paths (λ r. (is_unserved r.1 ≡ true) ⊎ (has_front r.1 ≡ true)) i w v task addr
        (λ _. inl refl) (λ a e l. inl refl) (λ a e l. inr refl) (λ a e l. inr refl)
  Move-unserved {i = i} {w} (resumes {task} {s} {b} {r} free live awake turn e) at =
      inr (resume-front i _ task b e)
  Move-unserved _ at = ground (arith, at)

  -- Nor does it get the lock while that is held.
  Move-kept_out :
      {addr i : ℕ} {w w' : World c} {p p' : Pc c}
      → Move addr i w p w' p'
      → w.mutex.holder ≢ none
      → is_kept_out p ≡ true
      → is_kept_out p' ≡ true
  Move-kept_out (client_lock free) busy at = absurd (busy free)
  Move-kept_out (locks free) busy at = absurd (busy free)
  Move-kept_out (asks free e) busy at = absurd (busy free)
  Move-kept_out (clears free e) busy at = absurd (busy free)
  Move-kept_out _ busy at = ground (arith, at)

  -- While another thread has the permission, such a use does not get it.
  pub stays_unserved :
      {addr : ℕ} {s : System c} (i j : ℕ) {w : World c} {p : Pc c}
      → Reach addr s
      → has_front (s.pc i) ≡ true
      → i ≢ j
      → Move addr j s.world (s.pc j) w p
      → is_unserved (s.pc j) ≡ true
      → is_unserved p ≡ true
  stays_unserved {s = s} i j {w} {p} r front other m at = elim (Move-unserved m at) [
    | inl same ↦ same
    | inr got ↦
        let there =
          front_exclusion (later r (pick j m)) i j (ground (arith, front)) (ground (arith, got)) in
        absurd (other there.0)
  ]

-- What holds of callers and what they have called.
record Layered {c : Client} (n : Nest c) : Type 0 where
  above : (i j : ℕ) → n.caller j ≡ some i → in_callback (n.system.pc i) ≡ true
  below : (i j : ℕ) → n.caller j ≡ some i → is_unserved (n.system.pc j) ≡ true
  barred :
      (i j : ℕ)
      → n.caller j ≡ some i
      → is_running (n.system.pc i) ≡ true
      → is_kept_out (n.system.pc j) ≡ true
  alone : (i j k : ℕ) → n.caller j ≡ some i → n.caller k ≡ some i → j ≡ k

module _ {c : Client} {n : Nest c} (lay : Layered n) where
  moves-Layered :
      {addr : ℕ} (i : ℕ) {w : World c} {p : Pc c}
      → Reach addr n.system
      → ((j : ℕ) → n.caller j ≢ some i)
      → Move addr i n.system.world (n.system.pc i) w p
      → Layered (record n { system = record { world = w; pc = update n.system.pc i p } })
  moves-Layered i {w} {p} r free m = record {
    above = λ k j called.
        update-cases n.system.pc i (λ l q. n.caller j ≡ some l → in_callback q ≡ true) p
          (λ mine. absurd (free j mine)) (λ l ne theirs. lay.above l j theirs) k called;
    below = λ k j called.
        update-cases n.system.pc i (λ l q. n.caller l ≡ some k → is_unserved q ≡ true) p
          (λ mine.
            stays_unserved k i r (in_callback-has_front _ (lay.above k i mine))
              (λ same. free i (mine ∙ ap some same)) m (lay.below k i mine))
          (λ l ne theirs. lay.below k l theirs) j called;
    barred = λ k j called.
        update-cases n.system.pc i
          (λ l q.
            n.caller l ≡ some k
            → is_running (update n.system.pc i p k) ≡ true
            → is_kept_out q ≡ true)
          p
          (λ mine at.
            let there : is_running (n.system.pc k) ≡ true =
              subst (λ q. is_running q ≡ true)
                (update_ne n.system.pc i k p (λ same. free i (mine ∙ ap some (sym same)))) at in
            let own = (Reach-Inv r).lock.locked k (ground (arith, there)) in
            Move-kept_out m (λ none. ground (arith, own)) (lay.barred k i mine there))
          (λ l ne theirs at. lay.barred k l theirs (
            subst (λ q. is_running q ≡ true)
              (update_ne n.system.pc i k p (λ same. free l (theirs ∙ ap some (sym same)))) at))
          j called;
    alone = lay.alone;
  }

  enters-Layered :
      (i j : ℕ)
      → in_callback (n.system.pc i) ≡ true
      → ((k : ℕ) → n.caller k ≢ some i)
      → n.system.pc j ≡ idle
      → Layered (record n { caller = update n.caller j (some i) })
  enters-Layered i j inside free at = record {
    above = λ k l.
        update-cases n.caller j (λ l' o. o ≡ some k → in_callback (n.system.pc k) ≡ true) (some i)
          (λ e. ap (λ x. in_callback (n.system.pc x)) (sym (some_injective i k e)) ∙ inside)
          (λ l' ne called. lay.above k l' called) l;
    below = λ k l.
        update-cases n.caller j (λ l' o. o ≡ some k → is_unserved (n.system.pc l') ≡ true) (some i)
          (λ e. ap is_unserved at) (λ l' ne called. lay.below k l' called) l;
    barred = λ k l.
        update-cases n.caller j
          (λ l' o.
            o ≡ some k → is_running (n.system.pc k) ≡ true → is_kept_out (n.system.pc l') ≡ true)
          (some i) (λ e _. ap is_kept_out at) (λ l' ne called. lay.barred k l' called) l;
    alone = λ k l l' a b. ground (arith, lay.alone k l l', free l, free l');
  }

  leaves-Layered : (j : ℕ) → Layered (record n { caller = update n.caller j none })
  leaves-Layered j = record {
    above = λ k l called. lay.above k l (ground arith);
    below = λ k l called. lay.below k l (ground arith);
    barred = λ k l called. lay.barred k l (ground arith);
    alone = λ k l l' a b. lay.alone k l l' (ground arith) (ground arith);
  }

Nested-Layered : {c : Client} {addr : ℕ} {n : Nest c} → Nested addr n → Layered n
Nested-Layered (begins f m options) = record {
  above = λ i j e. cc;
  below = λ i j e. cc;
  barred = λ i j e. cc;
  alone = λ i j k a b. cc;
}
Nested-Layered (goes r (moves i free m)) =
    moves-Layered (Nested-Layered r) i (nested_reach r) free m
Nested-Layered (goes r (Goes.enters i j inside free out at)) =
    enters-Layered (Nested-Layered r) i j inside free at
Nested-Layered (goes r (leaves i j called at)) = leaves-Layered (Nested-Layered r) j

-- However callbacks use the queue that calls them: in every state reached, what a callback executes
-- has not got past the wait of `process`, and has no result, and has not got the lock if the callback
-- is not in the closure of `unlocked`; its caller is in that callback, and was not itself called by
-- one; and no callback executes anything else.
pub nested_unserved :
    {c : Client} {addr : ℕ} {n : Nest c} (i j : ℕ)
    → Nested addr n
    → n.caller j ≡ some i
    → (is_unserved (n.system.pc j) ≡ true)
      × (is_running (n.system.pc i) ≡ true → is_kept_out (n.system.pc j) ≡ true)
      × (in_callback (n.system.pc i) ≡ true)
      × (n.caller i ≡ none)
      × ((k l : ℕ) → n.caller l ≡ some k → (k ≡ i) × (l ≡ j))
nested_unserved {n = n} i j r called =
    let lay = Nested-Layered r in
    (
      lay.below i j called,
      lay.barred i j called,
      lay.above i j called,
      outermost lay,
      λ k l other.
          (one lay k l other, lay.alone i l j (other ∙ ap some (one lay k l other)) called),
    )
  where
    one : Layered n → (k l : ℕ) → n.caller l ≡ some k → k ≡ i
    one lay k l other =
        (front_exclusion (nested_reach r) k i (in_callback-has_front _ (lay.above k l other))
          (in_callback-has_front _ (lay.above i j called))).0

    outermost : Layered n → n.caller i ≡ none
    outermost lay = elim (Option-cases (n.caller i)) [
      | inl top ↦ top
      | inr (k, e) ↦ absurd (ground (arith, lay.above i j called, lay.below k i e))
    ]
