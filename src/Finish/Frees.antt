-- ===== src/Finish/Frees.antt =====
-- The lock can be freed, and the permission can be handed over, while a thread waits.
use contention_queue.Prelude.{
  ℕ, ◌≡◌, ◌≢◌, refl, subst, ap, ◌∙◌, inl, inr, true, none, update_self, arith, Option-cases,
}
use contention_queue.Interface.{Client, ProcessTask}
use contention_queue.Poisoning.{drop_guard, unwind_guard}
use contention_queue.World.{
  World, Pc, exclusive, guarded, entering, running, unlocked, settling, failing, returned,
}
use contention_queue.Process.{process, start_waiting}
use contention_queue.Process.Paths.{process-paths}
use contention_queue.Run.{re_lock}
use contention_queue.System.{System, here, client_unlock, enters, re_locks, drops}
use contention_queue.Invariant.{has_front, holds_lock, Permission, released, held, granted}
use contention_queue.Invariant.Moves.{Reach-Inv}
use contention_queue.Invariant.Front.Waiters.{waiter-queue_ne}
use contention_queue.Invariant.Front.Moved.{true-ne-false}
use contention_queue.Finish.{Calm, AlwaysReturns, Line, Gets}
use contention_queue.Finish.Moves.{moves_on, Gets-append}
use contention_queue.Finish.Ends.{Free, runs_out, ends_settling, ends_failing}

module _ {c : Client} where
  -- Nobody holds the lock.
  abbrev pub Unlocked : System c → Type 0
  Unlocked s = s.world.mutex.holder ≡ none

  -- What a call with a guard comes to: the lock is free, and nothing has panicked in a callback.
  abbrev Entered : World c × Pc c → Type 0
  Entered r = Calm r.1 × (r.1 ≢ failing) × (r.0.mutex.holder ≡ none)

  enters_line :
      (addr : ℕ) (w : World c) (j : ℕ) (v : c.Value) (task : ProcessTask c)
      → (exclusive w).front_locked ≡ true
      → AlwaysReturns task
      → Entered (process addr j w v task)
  unfolding start_waiting drop_guard unwind_guard
  enters_line addr w j v task taken calm =
      process-paths Entered j w v task addr (λ _. (tt, λ e. cc, refl))
        (λ a e l. (calm, λ x. cc, refl)) (λ a e free. absurd (true-ne-false taken free))
        (λ a e free. absurd (true-ne-false taken free))

module _ {c : Client} {addr i n : ℕ} where
  -- While a thread waits, the front permission is taken or granted.
  front_taken : {s : System c} → Line addr i n s → (exclusive s.world).front_locked ≡ true
  front_taken {s} line = go (Reach-Inv line.reach).front.permission
    where
      go :
          Permission (exclusive s.world) s.world.frames s.pc
          → (exclusive s.world).front_locked ≡ true
      go (released l e nf) = absurd (waiter-queue_ne (Reach-Inv line.reach).front i e line.waits)
      go (held h k l hf un cu po asl) = l
      go (granted k t rest l e nf po aw asl) = l

  pub frees_lock : {s : System c} → Line addr i n s → Gets addr i n s Unlocked
  unfolding drop_guard
  frees_lock {s} line = elim (Option-cases s.world.mutex.holder) [
    | inl free ↦ record { last = s; steps = here; line = line; meets = free }
    | inr (j, e) ↦ elim ((Reach-Inv line.reach).lock.locker j e) [
      | inl own ↦ go j (s.pc j) refl own
      | inr lost ↦ absurd (line.sound j e lost)
    ]
  ]
    where
      go : (j : ℕ) (p : Pc c) → s.pc j ≡ p → holds_lock p ≡ true → Gets addr i n s Unlocked
      go j guarded at h =
          moves_on line j at client_unlock refl tt (λ e. cc)
            (λ line'. record { last = _; steps = here; line = line'; meets = refl })
      go j (entering v task) at h =
          let calm = subst Calm at (line.calm j) in
          let (calm', fine, free) = enters_line addr s.world j v task (front_taken line) calm in
          moves_on line j at enters refl calm' fine
            (λ line'. record { last = _; steps = here; line = line'; meets = free })
      go j (running hd k) at h =
          Gets-append (runs_out j k hd (subst Calm at (line.calm j)) line at) (λ t line' ends.
            Gets-append (ends_settling j line' ends)
              (λ u line'' free. record { last = u; steps = here; line = line''; meets = free.0 }))
      go j (settling r) at h =
          Gets-append (ends_settling j line (r, at))
            (λ u line' free. record { last = u; steps = here; line = line'; meets = free.0 })
      go j (returned r) at h =
          moves_on line j at drops refl tt (λ e. cc)
            (λ line'. record { last = _; steps = here; line = line'; meets = refl })
      go j _ at h = absurd (ground arith)

  pub frees_front : {s : System c} → Line addr i n s → Unlocked s → Gets addr i n s Free
  unfolding re_lock
  frees_front {s} line free = go (Reach-Inv line.reach).front.permission
    where
      busy : (j : ℕ) {p : Pc c} → s.pc j ≡ p → holds_lock p ≡ true → ⊥
      busy j at h =
          let taken = (Reach-Inv line.reach).lock.locked j (ap holds_lock at ∙ h) in ground arith

      by : (j : ℕ) (p : Pc c) → s.pc j ≡ p → has_front p ≡ true → Gets addr i n s Free
      by j (unlocked hd k) at h =
          let calm = subst Calm at (line.calm j) in
          moves_on line j at (re_locks none free) refl (calm none) (λ e. cc)
            (λ line'.
              Gets-append (runs_out j (k none) hd (calm none) line' (update_self s.pc j _))
                (λ t line'' ends. ends_settling j line'' ends))
      by j failing at h = ends_failing j line free at
      by j (running hd k) at h = absurd (busy j at refl)
      by j (settling r) at h = absurd (busy j at refl)
      by j _ at h = absurd (ground arith)

      go : Permission (exclusive s.world) s.world.frames s.pc → Gets addr i n s Free
      go (released l e nf) = absurd (waiter-queue_ne (Reach-Inv line.reach).front i e line.waits)
      go (held h k l hf un cu po asl) = by h (s.pc h) refl hf
      go (granted k t rest l e nf po aw asl) = record {
        last = s;
        steps = here;
        line = line;
        meets = (free, nf);
      }
