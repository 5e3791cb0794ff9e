-- ===== src/Nested/Hangs.antt =====
-- A call of src/queue.rs from the inside of a callback of the same queue, once it has the lock: it
-- waits for the callback that has called it, and every later call waits with it.
use contention_queue.Prelude.{
  ℕ, ◌≡◌, ◌≢◌, ◌⊎◌, inl, inr, refl, sym, ap, ◌∙◌, true, some, update, update_self, update_ne,
  update-cases, arith, none, subst,
}
use contention_queue.Interface.{Client, ProcessTask}
use contention_queue.Queue.Address.{assert_mutex_good-returns}
use contention_queue.World.{World, Pc, exclusive, entering, waiting}
use contention_queue.Process.{process, start_waiting}
use contention_queue.Process.Paths.{process-paths}
use contention_queue.Safety.Progress.{Move-waiting}
use contention_queue.System.{System, Move, enters, Reach, pick, later}
use contention_queue.Invariant.{has_front, is_waiting}
use contention_queue.Invariant.Moves.{Reach-Inv}
use contention_queue.Safety.{front_exclusion}
use contention_queue.Nested.{
  Nest, Goes, Nested, goes, nested_reach, Course, here, next, Nested-Course,
}
use contention_queue.Nested.Unserved.{nested_unserved, in_callback-has_front}

module _ {c : Client} where
  -- While another thread has the permission, it still waits.
  stays_waiting :
      {addr : ℕ} {s : System c} (i k : ℕ) {w : World c} {p : Pc c}
      → Reach addr s
      → has_front (s.pc i) ≡ true
      → i ≢ k
      → Move addr k s.world (s.pc k) w p
      → is_waiting (s.pc k) ≡ true
      → is_waiting p ≡ true
  stays_waiting {s = s} i k {w} {p} r front other m at = elim (Move-waiting m at) [
    | inl same ↦ same
    | inr got ↦
        let there =
          front_exclusion (later r (pick k m)) i k (ground (arith, front)) (ground (arith, got)) in
        absurd (other there.0)
  ]

  -- With the permission taken, a call whose mutex is accepted waits.
  process-waits :
      (addr j : ℕ) (w : World c) (v : c.Value) (task : ProcessTask c)
      → (w.cq.mutex_address ≡ 0) ⊎ (w.cq.mutex_address ≡ addr)
      → (exclusive w).front_locked ≡ true
      → (process addr j w v task).1 ≡ waiting task
  unfolding start_waiting
  process-waits addr j w v task known locked =
      let good = assert_mutex_good-returns w.cq.mutex_address addr known in
      process-paths (λ r. r.1 ≡ waiting task) j w v task addr (λ bad. absurd (ground arith))
        (λ a e l. refl) (λ a e free. absurd (ground arith)) (λ a e free. absurd (ground arith))

-- What activation `i` has called waits, and activation `i` is in its callback at `p`.
record IsHung {c : Client} (i j : ℕ) (p : Pc c) (n : Nest c) : Type 0 where
  called : n.caller j ≡ some i
  waits : is_waiting (n.system.pc j) ≡ true
  stays : n.system.pc i ≡ p

module _ {c : Client} {addr : ℕ} {p : Pc c} (i j : ℕ) where
  hung_front : {n : Nest c} → Nested addr n → IsHung i j p n → has_front (n.system.pc i) ≡ true
  hung_front r hung = in_callback-has_front _ (nested_unserved i j r hung.called).2

  Goes-waiting :
      {n n' : Nest c}
      → Nested addr n
      → IsHung i j p n
      → Goes addr n n'
      → (k : ℕ) → is_waiting (n.system.pc k) ≡ true
      → is_waiting (n'.system.pc k) ≡ true
  Goes-waiting {n} r hung (Goes.moves l {p = q} free m) k at =
      update-cases n.system.pc l (λ x y. is_waiting (n.system.pc x) ≡ true → is_waiting y ≡ true) q
        (λ w.
          stays_waiting i l (nested_reach r) (hung_front r hung)
            (λ same. free j (hung.called ∙ ap some same)) m w)
        (λ x ne w. w) k at
  Goes-waiting r hung (Goes.enters l m inside free out idle) k at = at
  Goes-waiting r hung (Goes.leaves l m called idle) k at = at

  Goes-IsHung : {n n' : Nest c} → Nested addr n → IsHung i j p n → Goes addr n n' → IsHung i j p n'
  Goes-IsHung {n} r hung (Goes.moves l {p = q} free m) = record {
    called = hung.called;
    waits = Goes-waiting r hung (Goes.moves l free m) j hung.waits;
    stays =
        update_ne n.system.pc l i q (λ same. free j (hung.called ∙ ap some (sym same)))
        ∙ hung.stays;
  }
  Goes-IsHung {n} r hung (Goes.enters l m inside free out idle) = record {
    called =
        update_ne n.caller m j (some l) (λ same. ground (arith, hung.called, out, ap n.caller same))
        ∙ hung.called;
    waits = hung.waits;
    stays = hung.stays;
  }
  Goes-IsHung {n} r hung (Goes.leaves l m called idle) = record {
    called =
        update_ne n.caller m j none
          (λ same. ground (arith, hung.waits, idle, ap (λ x. is_waiting (n.system.pc x)) same))
        ∙ hung.called;
    waits = hung.waits;
    stays = hung.stays;
  }

  Course-IsHung :
      {n n' : Nest c}
      → Nested addr n
      → IsHung i j p n
      → Course addr n n'
      → IsHung i j p n'
        × ((k : ℕ) → is_waiting (n.system.pc k) ≡ true → is_waiting (n'.system.pc k) ≡ true)
  Course-IsHung r hung here = (hung, λ k at. at)
  Course-IsHung r hung (next steps g) =
      let before = Course-IsHung r hung steps in
      let reached = Nested-Course r steps in
      (Goes-IsHung reached before.0 g, λ k at. Goes-waiting reached before.0 g k (before.1 k at))

-- If a callback calls `process` on its own queue, having got the lock: then after the next move of
-- this call and in every later state the call waits, the callback that has called it is where it
-- was and alone has the permission, and every thread that waited still waits.
pub nested_call-hangs :
    {c : Client} {addr : ℕ} {n u : Nest c} (i j : ℕ) (v : c.Value) (task : ProcessTask c)
    → Nested addr n
    → n.caller j ≡ some i
    → n.system.pc j ≡ entering v task
    → let (w, p) = process addr j n.system.world v task in
      Course addr (record n { system = record { world = w; pc = update n.system.pc j p } }) u
      → (is_waiting (u.system.pc j) ≡ true)
        × (u.caller j ≡ some i)
        × (u.system.pc i ≡ n.system.pc i)
        × ((k : ℕ) → has_front (u.system.pc k) ≡ true → k ≡ i)
        × ((exclusive u.system.world).front_locked ≡ true)
        × ((k : ℕ) → is_waiting (n.system.pc k) ≡ true → is_waiting (u.system.pc k) ≡ true)
nested_call-hangs {c} {addr} {n} {u} i j v task r called at steps =
    let (early, barred, inside, top, only) = nested_unserved i j r called in
    let other : i ≢ j = λ same. ground (arith, at, inside, ap n.system.pc same) in
    let w = (process addr j n.system.world v task).0 in
    let p = (process addr j n.system.world v task).1 in
    let m : Move addr j n.system.world (n.system.pc j) w p =
      subst (λ x. Move addr j n.system.world x w p) (sym at) enters in
    let free : (k : ℕ) → n.caller k ≢ some j = λ k e. other (sym (only j k e).0) in
    let hung : IsHung i j (n.system.pc i)
        (record n { system = record { world = w; pc = update n.system.pc j p } }) =
      record {
        called = called;
        waits = ap is_waiting (update_self n.system.pc j p ∙ waits);
        stays = update_ne n.system.pc j i p (λ same. other (sym same));
      } in
    let first = goes r (Goes.moves j free m) in
    let (after, kept) = Course-IsHung i j first hung steps in
    let reached = Nested-Course first steps in
    let held = hung_front i j reached after in
    (
      after.waits,
      after.called,
      after.stays,
      λ k f. (front_exclusion (nested_reach reached) k i f held).0,
      (front_exclusion (nested_reach reached) i i held held).1,
      λ k at'. kept k (
          update-cases n.system.pc j
            (λ x y. is_waiting (n.system.pc x) ≡ true → is_waiting y ≡ true) p
            (λ e. ap is_waiting waits) (λ x ne e. e) k at'),
    )
  where
    waits : (process addr j n.system.world v task).1 ≡ waiting task
    waits =
        let front = in_callback-has_front _ (nested_unserved i j r called).2 in
        process-waits addr j n.system.world v task (Reach-Inv (nested_reach r)).address
          (front_exclusion (nested_reach r) i i front front).1
