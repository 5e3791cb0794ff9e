-- ===== src/Invariant/Lock.antt =====
-- What a move does to the lock, and that it keeps `LockInv`.
use contention_queue.Prelude.{ℕ, ◌≡◌, true, false, Option, none, some, update, arith}
use contention_queue.Interface.{Client}
use contention_queue.World.{Pc, failing}
use contention_queue.Invariant.{holds_lock, LockInv}

-- Thread `i` goes from `p` to `p'`, and the holder of the lock from `h` to `h'`.
pub data LockEffect {c : Client} (i : ℕ) (h : Option ℕ) (p : Pc c) (h' : Option ℕ) (p' : Pc c)
    : Type 0 where
  keeps :
      h' ≡ h → holds_lock p' ≡ holds_lock p → (p ≡ failing → p' ≡ failing) → LockEffect i h p h' p'
  leaks : h' ≡ h → holds_lock p ≡ true → p' ≡ failing → LockEffect i h p h' p'
  takes : h ≡ none → h' ≡ some i → holds_lock p' ≡ true → LockEffect i h p h' p'
  drops : holds_lock p ≡ true → h' ≡ none → holds_lock p' ≡ false → LockEffect i h p h' p'
  visits : h ≡ none → h' ≡ none → holds_lock p' ≡ false → LockEffect i h p h' p'

module _ {c : Client} {i : ℕ} {h h' : Option ℕ} {p' : Pc c} {pc : ℕ → Pc c}
    (inv : LockInv h pc) where
  pub LockEffect-LockInv :
      {p : Pc c} → LockEffect i h p h' p' → pc i ≡ p → LockInv h' (update pc i p')
  LockEffect-LockInv (keeps e l f) o = record {
    locked = λ j. ground (arith, inv.locked j);
    locker = λ j. ground (arith, inv.locker j, f);
  }
  LockEffect-LockInv (leaks e l f) o = record {
    locked = λ j. ground (arith, inv.locked j);
    locker = λ j. ground (arith, inv.locker j, inv.locked i);
  }
  LockEffect-LockInv (takes e e' l) o = record {
    locked = λ j. ground (arith, inv.locked j);
    locker = λ j. ground (arith, inv.locker j);
  }
  LockEffect-LockInv (drops l e l') o = record {
    locked = λ j. ground (arith, inv.locked j, inv.locked i);
    locker = λ j. ground (arith, inv.locker j);
  }
  LockEffect-LockInv (visits e e' l) o = record {
    locked = λ j. ground (arith, inv.locked j);
    locker = λ j. ground (arith, inv.locker j);
  }
