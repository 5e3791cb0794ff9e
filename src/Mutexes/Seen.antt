-- ===== src/Mutexes/Seen.antt =====
-- What the users of one mutex see of the moves of all threads.
use mathlib.Core.Path.{fun_ext}
use contention_queue.Prelude.{
  ℕ, ◌≡◌, ◌≢◌, ◌⊎◌, inl, inr, refl, sym, subst, ap, ◌∙◌, true, arith, update, ==_iff, ◌==◌,
  Bool-cases, ℕ_discrete, update_self, update_ne, if◌then◌else◌,
}
use contention_queue.Interface.{Client}
use contention_queue.Queue.{new_with_options}
use contention_queue.World.{World, Pc, idle}
use contention_queue.System.{Move, Reach, start, later, pick, init}
use contention_queue.Invariant.{has_front}
use contention_queue.Invariant.Moves.{Reach-Inv, Move-Effect}
use contention_queue.Safety.{front_exclusion}
use contention_queue.Mutexes.{
  Threads, turns, moves, Turns, begin, goes, view, put, seen, is_outside,
}
use contention_queue.Mutexes.Outside.{outside-Move}

module _ {c : Client} (s : Threads c) (i : ℕ) where
  -- A thread sees itself.
  pub seen_self : (seen (s.uses i) s).pc i ≡ s.pc i
  seen_self = let same = (==_iff (s.uses i) (s.uses i)).1 refl in ground (arith, same)

  -- A move of thread `i` is one that the users of its mutex see.
  own_move :
      {w : World c} {p : Pc c}
      → Reach (s.uses i) (seen (s.uses i) s)
      → Move (s.uses i) i (view (s.uses i) s) (s.pc i) w p
      → Reach (s.uses i) (seen (s.uses i) (put i w p s))
  own_move {w} {p} r m =
      let step =
        later r
          (pick i (subst (λ x. Move (s.uses i) i (view (s.uses i) s) x w p) (sym seen_self) m)) in
      subst
        (λ x. Reach (s.uses i) (record {
          world = record { cq = w.cq; mutex = x; frames = w.frames };
          pc = (seen (s.uses i) (put i w p s)).pc;
        }))
        (sym (update_self s.mutexes (s.uses i) w.mutex))
        (subst (λ x. Reach (s.uses i) (record { world = w; pc = x })) (fun_ext pcs) step)
    where
      pcs : (j : ℕ) → update (seen (s.uses i) s).pc i p j ≡ (seen (s.uses i) (put i w p s)).pc j
      pcs j = let same = (==_iff (s.uses i) (s.uses i)).1 refl in ground (arith, same)

  -- The users of another mutex do not see it, if it leaves the queue and the frames alone.
  other_move :
      (a : ℕ) (w : World c) (p : Pc c)
      → s.uses i ≢ a
      → w.cq ≡ s.cq
      → w.frames ≡ s.frames
      → Reach a (seen a s)
      → Reach a (seen a (put i w p s))
  other_move a w p ne cq frames r =
      let mutex = update_ne s.mutexes (s.uses i) a w.mutex ne in
      let world : view a s ≡ view a (put i w p s) = ground (arith, mutex) in
      subst (λ x. Reach a (record { world = x; pc = (seen a (put i w p s)).pc })) world
        (subst (λ x. Reach a (record { world = view a s; pc = x })) (fun_ext pcs) r)
    where
      pcs : (j : ℕ) → (seen a s).pc j ≡ (seen a (put i w p s)).pc j
      pcs j = let other = (==_iff (s.uses i) a).0 in ground (arith, other)

-- A thread that uses another mutex than the stored one is outside of the queue, and the users of
-- each mutex that may be the stored one are a system of their own.
pub record Separate {c : Client} (s : Threads c) : Type 0 where
  pub real : (j : ℕ) → s.uses j ≢ 0
  outside : (j : ℕ) → s.uses j ≢ s.cq.mutex_address → is_outside (s.pc j) ≡ true
  pub reached :
      (a : ℕ) → a ≢ 0 → (s.cq.mutex_address ≡ 0) ⊎ (s.cq.mutex_address ≡ a) → Reach a (seen a s)

module _ {c : Client} {s : Threads c} (inv : Separate s) (i : ℕ) where
  turns-Separate :
      (b : ℕ) → s.pc i ≡ idle → b ≢ 0 → Separate (record s { uses = update s.uses i b })
  turns-Separate b at nz = record {
    real = λ j. ground (arith, inv.real j);
    outside = λ j. ground (arith, inv.outside j, ap is_outside at);
    reached = λ a nza h.
        subst (λ x. Reach a (record { world = view a s; pc = x })) (fun_ext (pcs a))
          (inv.reached a nza h);
  }
    where
      pcs : (a j : ℕ) → (seen a s).pc j ≡ (seen a (record s { uses = update s.uses i b })).pc j
      pcs a j = ground arith

  -- A move that leaves the queue alone.
  refused-Separate :
      {w : World c} {p : Pc c}
      → Move (s.uses i) i (view (s.uses i) s) (s.pc i) w p
      → w.cq ≡ s.cq
      → w.frames ≡ s.frames
      → is_outside p ≡ true
      → Separate (put i w p s)
  refused-Separate {w} {p} m cq frames out = record {
    real = inv.real;
    outside = λ j. ground (arith, inv.outside j, ap (λ x. x.mutex_address) cq);
    reached = λ a nz h. elim (ℕ_discrete (s.uses i) a) [
      | yes e ↦
          subst (λ x. Reach x (seen x (put i w p s))) e
            (own_move s i
              (inv.reached (s.uses i) (inv.real i) (ground (arith, ap (λ x. x.mutex_address) cq)))
              m)
      | no ne ↦
          other_move s i a w p ne cq frames
            (inv.reached a nz (ground (arith, ap (λ x. x.mutex_address) cq)))
    ];
  }

  -- A move after which the thread's own mutex is the stored one.
  stored-Separate :
      {w : World c} {p : Pc c}
      → Move (s.uses i) i (view (s.uses i) s) (s.pc i) w p
      → w.cq.mutex_address ≡ s.uses i
      → (s.cq.mutex_address ≡ 0) ⊎ (s.cq.mutex_address ≡ s.uses i)
      → Separate (put i w p s)
  stored-Separate {w} {p} m after before = record {
    real = inv.real;
    outside = λ j ne. ground (arith, inv.outside j, inv.real j);
    reached = λ a nz h.
        let same : s.uses i ≡ a = ground (arith, inv.real i) in
        subst (λ x. Reach x (seen x (put i w p s))) same
          (own_move s i (inv.reached (s.uses i) (inv.real i) before) m);
  }

  moves-Separate :
      {w : World c} {p : Pc c}
      → Move (s.uses i) i (view (s.uses i) s) (s.pc i) w p
      → Separate (put i w p s)
  moves-Separate {w} {p} m = elim (Bool-cases (is_outside (s.pc i))) [
    | inl out ↦ elim (outside-Move m out) [
      | inl (cq, frames, out') ↦ refused-Separate m cq frames out'
      | inr (after, before) ↦ stored-Separate m after before
    ]
    | inr into ↦ elim (ℕ_discrete (s.uses i) s.cq.mutex_address) [
      | no ne ↦ absurd (ground (arith, inv.outside i ne))
      | yes e ↦
          let r = inv.reached (s.uses i) (inv.real i) (inr (sym e)) in
          let address = (Move-Effect (Reach-Inv r).front (seen_self s i) m).address in
          stored-Separate m (ground (arith, address)) (inr (sym e))
    ]
  ]

pub Turns-Separate : {c : Client} {s : Threads c} → Turns s → Separate s
unfolding new_with_options
Turns-Separate {c} (begin f m options uses real) = record {
  real = real;
  outside = λ j ne. refl;
  reached = λ a nz h.
      let pcs : (j : ℕ)
          → (init {c = c} f (m a) options).pc j ≡ (if uses j == a then idle else idle) =
        λ j. ground arith in
      subst (λ x. Reach a (record { world = (init {c = c} f (m a) options).world; pc = x }))
        (fun_ext pcs) (start f (m a) options);
}
Turns-Separate (goes r (turns i b at nz)) = turns-Separate (Turns-Separate r) i b at nz
Turns-Separate (goes r (moves i m)) = moves-Separate (Turns-Separate r) i m

-- However many mutexes threads use with one queue, each in turn, if each call of `process` is given a
-- guard of the mutex that it names, which the code does not check: in every state that they reach, the
-- threads that use a mutex at an address `a` that may be the stored one, which is not null, are in a
-- state that threads reach that use no other mutex.
pub one_system :
    {c : Client} {s : Threads c} (a : ℕ)
    → Turns s
    → a ≢ 0
    → (s.cq.mutex_address ≡ 0) ⊎ (s.cq.mutex_address ≡ a)
    → Reach a (seen a s)
one_system a r nz h = (Turns-Separate r).reached a nz h

-- However many mutexes threads use with one queue, if each call of `process` is given a guard of the
-- mutex that it names, which the code does not check: in every state that they reach, two threads that
-- have exclusive permissions over `front_exclusive` are one thread, and it uses the mutex whose
-- address is stored.
pub front_exclusion_across :
    {c : Client} {s : Threads c} (i j : ℕ)
    → Turns s
    → has_front (s.pc i) ≡ true
    → has_front (s.pc j) ≡ true
    → (i ≡ j) × (s.uses i ≡ s.cq.mutex_address)
front_exclusion_across {s = s} i j r fi fj =
    let inv = Turns-Separate r in
    let mine : s.uses i ≡ s.cq.mutex_address = inside inv i fi in
    let theirs : s.uses j ≡ s.uses i = inside inv j fj ∙ sym mine in
    let one = inv.reached (s.uses i) (inv.real i) (inr (sym mine)) in
    (
      (front_exclusion one i j (ap has_front (seen_self s i) ∙ fi) (
          ap (λ a. has_front ((seen a s).pc j)) (sym theirs)
          ∙ ap has_front (seen_self s j)
          ∙ fj)).0,
      mine,
    )
  where
    inside : Separate s → (k : ℕ) → has_front (s.pc k) ≡ true → s.uses k ≡ s.cq.mutex_address
    inside inv k f = elim (ℕ_discrete (s.uses k) s.cq.mutex_address) [
      | yes e ↦ e
      | no ne ↦ absurd (ground (arith, inv.outside k ne))
    ]
