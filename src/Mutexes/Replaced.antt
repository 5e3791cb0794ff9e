-- ===== src/Mutexes/Replaced.antt =====
-- Another mutex at the address of the first, between calls that are not concurrent: the last note of
-- `assert_mutex_good` in src/queue.rs.
use mathlib.Core.Path.{fun_ext}
use contention_queue.Prelude.{
  ℕ, ◌≡◌, sym, subst, none, false, inl, inr, update, update_self, arith, Option-cases,
}
use contention_queue.Interface.{Client, PanicOptions}
use contention_queue.Poisoning.{Mutex, ignore_poison, lock, drop_guard}
use contention_queue.World.{World, set_mutex, Pc, idle, guarded}
use contention_queue.System.{
  System, Move, client_lock, client_write, client_unlock, client_clear, Step, Reach, start, later,
  pick, init,
}
use contention_queue.Invariant.Moves.{Reach-Inv}

-- A new mutex, nobody's and not poisoned.
abbrev pub fresh {ℓ} : {M : Type ℓ} → M → Mutex M
fresh m = record { holder = none; is_poisoned = false; inner = m }

module _ {c : Client} where
  abbrev pub replace : c.MutexState → System c → System c
  replace m s = record s { world = set_mutex (fresh m) s.world }

  pub data Replaces (addr : ℕ) : System c → Type 0 where
    begins :
        (f : c.FrontState) (m : c.MutexState) (options : PanicOptions)
        → Replaces addr (init f m options)
    steps : {s t : System c} → Replaces addr s → Step addr s t → Replaces addr t
    -- while no call is going on and no guard is alive, nothing borrows the mutex
    replaces :
        {s : System c} (m : c.MutexState)
        → Replaces addr s
        → ((j : ℕ) → s.pc j ≡ idle)
        → Replaces addr (replace m s)

module _ {c : Client} {addr : ℕ} {s : System c} (i : ℕ) (r : Reach addr s) where
  -- Nobody holds a mutex that nobody uses.
  unused_free : ((j : ℕ) → s.pc j ≡ idle) → s.world.mutex.holder ≡ none
  unused_free out = elim (Option-cases s.world.mutex.holder) [
    | inl e ↦ e
    | inr (j, e) ↦ absurd (ground (arith, (Reach-Inv r).lock.locker j e, out j))
  ]

  -- A move of client code from a place that is written in another way.
  moves_on :
      {p p' : Pc c} {w : World c}
      → s.pc i ≡ p
      → Move addr i s.world p w p'
      → Reach addr (record { world = w; pc = update s.pc i p' })
  moves_on {p' = p'} {w = w} at m =
      later r (pick i (subst (λ x. Move addr i s.world x w p') (sym at) m))

module _ {c : Client} {addr : ℕ} where
  -- The new mutex is one that client code could have made of the old one, with its guard.
  replaced :
      {s : System c} (m : c.MutexState)
      → Reach addr s
      → ((j : ℕ) → s.pc j ≡ idle)
      → Reach addr (replace m s)
  unfolding ignore_poison lock drop_guard
  replaced {s} m r out =
      let locked = moves_on 0 r (out 0) (client_lock (unused_free 0 r out)) in
      let written = moves_on 0 locked (update_self s.pc 0 guarded) (client_write m) in
      let unlocked =
        moves_on 0 written (update_self (update s.pc 0 guarded) 0 guarded) client_unlock in
      let cleared =
        moves_on 0 unlocked (update_self (update (update s.pc 0 guarded) 0 guarded) 0 idle)
          client_clear in
      subst (λ pc. Reach addr (record { world = set_mutex (fresh m) s.world; pc = pc }))
        (fun_ext pcs) cleared
    where
      pcs :
          (j : ℕ)
          → update (update (update (update s.pc 0 guarded) 0 guarded) 0 idle) 0 idle j ≡ s.pc j
      pcs j = ground (arith, out 0)

-- However often the mutex is replaced by another one at its address while no call is going on: the
-- threads are in a state that they reach with one mutex.
pub replaced_reach : {c : Client} {addr : ℕ} {s : System c} → Replaces addr s → Reach addr s
replaced_reach (begins f m options) = start f m options
replaced_reach (steps r st) = later (replaced_reach r) st
replaced_reach (replaces m r out) = replaced m (replaced_reach r) out

-- Threads with one mutex are a case of this.
pub Reach-Replaces : {c : Client} {addr : ℕ} {s : System c} → Reach addr s → Replaces addr s
Reach-Replaces (start f m options) = begins f m options
Reach-Replaces (later r st) = steps (Reach-Replaces r) st
