-- ===== src/Ending/Rest.antt =====
-- That a call which is under way can go on, or another one can.
use contention_queue.Prelude.{
  ℕ, ◌≡◌, ◌≢◌, ◌⊎◌, inl, inr, refl, sym, subst, ap, ◌∙◌, Option, none, some, true, false, [], arith,
  Option-cases,
}
use contention_queue.Interface.{Client, Callback}
use contention_queue.TaskState.{TaskState}
use contention_queue.Shape.{Awake, is_live}
use contention_queue.World.{
  World, Pc, exclusive, idle, guarded, calling, entering, waiting, running, unlocked, settling,
  failing, returned, panicked,
}
use contention_queue.System.{System, Move, Reach, locks, catches, repeats, runs}
use contention_queue.Invariant.{
  has_front, is_waiting, holds_lock, Permission, released, held, granted,
}
use contention_queue.Invariant.Moves.{Reach-Inv}
use contention_queue.Safety.Progress.{Progress, waiters_progress, holder_moves, front_moves}
use contention_queue.Finish.{Calm, Finishes}
use contention_queue.Ending.{GoesOn, Advances, InTree, Onward, onward}

Awake-live : (o : Option TaskState) → Awake o → is_live o ≡ true
Awake-live none aw = absurd aw
Awake-live (some ts) aw = refl

module _ {c : Client} where
  -- No thread has lost a locked guard to a panic.
  abbrev pub IsSound : System c → Type 0
  IsSound s = (j : ℕ) → s.world.mutex.holder ≡ some j → s.pc j ≢ failing

  -- All threads are idle, nobody waits, and the lock and the front are free.
  abbrev pub AtRest : System c → Type 0
  AtRest s =
      ((j : ℕ) → s.pc j ≡ idle)
      × (s.world.mutex.holder ≡ none)
      × ((exclusive s.world).front_locked ≡ false)
      × ((exclusive s.world).queue ≡ [])

InTree-of : {c : Client} (k : Callback c) → Finishes k → InTree k
InTree-of Callback.again never = absurd never
InTree-of _ never = ground arith

GoesOn-Advances :
    {c : Client} {addr i : ℕ} {w w' : World c} {p p' : Pc c} (m : Move addr i w p w' p')
    → GoesOn m
    → Calm p
    → Advances m
GoesOn-Advances (repeats k) on calm = absurd calm
GoesOn-Advances (runs {h} {k}) on calm = InTree-of k calm
GoesOn-Advances m on calm = on

module _ {c : Client} {addr : ℕ} {s : System c} (r : Reach addr s) where
  Progress-Onward : ((j : ℕ) → Calm (s.pc j)) → Progress r → (t : System c) × Onward addr s t
  Progress-Onward calm (j, w', p', m, on, why) = (_, onward j m (GoesOn-Advances m on (calm j)))

  by_place :
      (j : ℕ) {p p' : Pc c} {w' : World c}
      → s.pc j ≡ p
      → (m : Move addr j s.world p w' p') → Advances m
      → (t : System c) × Onward addr s t
  by_place j {p' = p'} {w' = w'} at m on =
      let (m', on') =
        subst (λ p. (m : Move addr j s.world p w' p') × Advances m) (sym at) (m, on) in
      (_, onward j m' on')

  -- While no callback will panic or loop and a thread is not idle, some thread can go on.
  pub someone_goes :
      ((j : ℕ) → Calm (s.pc j))
      → IsSound s
      → (j : ℕ) → (s.pc j ≡ idle) ⊎ ((t : System c) × Onward addr s t)
  someone_goes calm sound j = elim (Option-cases s.world.mutex.holder) [
    | inr (k, e) ↦ elim ((Reach-Inv r).lock.locker k e) [
      | inl h ↦ inr (Progress-Onward calm (holder_moves r k h))
      | inr lost ↦ absurd (sound k e lost)
    ]
    | inl free ↦ go free (s.pc j) refl
  ]
    where
      busy : s.world.mutex.holder ≡ none → {p : Pc c} → s.pc j ≡ p → holds_lock p ≡ true → ⊥
      busy free at h =
          let taken = (Reach-Inv r).lock.locked j (ap holds_lock at ∙ h) in ground arith

      go :
          s.world.mutex.holder ≡ none
          → (p : Pc c) → s.pc j ≡ p
          → (s.pc j ≡ idle) ⊎ ((t : System c) × Onward addr s t)
      go free idle at = inl at
      go free (calling v task) at = inr (by_place j at (locks free) tt)
      go free (waiting task) at =
          inr (Progress-Onward calm (waiters_progress r j (ap is_waiting at) sound))
      go free (unlocked h k) at =
          inr (Progress-Onward calm (front_moves r free j (ap has_front at)))
      go free failing at = inr (Progress-Onward calm (front_moves r free j (ap has_front at)))
      go free panicked at = inr (by_place j at catches tt)
      go free guarded at = absurd (busy free at refl)
      go free (entering v task) at = absurd (busy free at refl)
      go free (running h k) at = absurd (busy free at refl)
      go free (settling x) at = absurd (busy free at refl)
      go free (returned x) at = absurd (busy free at refl)

  -- Where all threads are idle, nothing is left of their calls.
  pub rests : IsSound s → ((j : ℕ) → s.pc j ≡ idle) → AtRest s
  rests sound all = (all, unlocked_, free.0, free.1)
    where
      unlocked_ : s.world.mutex.holder ≡ none
      unlocked_ = elim (Option-cases s.world.mutex.holder) [
        | inl e ↦ e
        | inr (k, e) ↦ elim ((Reach-Inv r).lock.locker k e) [
          | inl h ↦ absurd (ground (arith, ap holds_lock (all k)))
          | inr lost ↦ absurd (sound k e lost)
        ]
      ]

      go :
          Permission (exclusive s.world) s.world.frames s.pc
          → ((exclusive s.world).front_locked ≡ false) × ((exclusive s.world).queue ≡ [])
      go (released l e n) = (l, e)
      go (held h k l hh un cu po asl) = absurd (ground (arith, hh, ap has_front (all h)))
      go (granted k t rest l e n po aw asl) =
          let live = Awake-live (s.world.frames t.state) aw in
          let waits = (Reach-Inv r).front.live t.state in
          absurd (ground (arith, live, waits, ap is_waiting (all t.state)))

      free : ((exclusive s.world).front_locked ≡ false) × ((exclusive s.world).queue ≡ [])
      free = go (Reach-Inv r).front.permission
