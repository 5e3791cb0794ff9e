-- ===== src/Invariant/Front/Moved.antt =====
-- The facts of a permission, carried to a state in which thread `i` stands at `p'`.
use contention_queue.Prelude.{
  ℕ, ◌≡◌, ◌≢◌, sym, subst, Bool, true, false, Option, List, update, update_self, update_ne, arith,
}
use contention_queue.Interface.{Client}
use contention_queue.TaskState.{TaskState}
use contention_queue.Shape.{AllAsleep}
use contention_queue.World.{Pc}
use contention_queue.Invariant.{has_front, Cursor}

-- A Boolean that cannot be true.
pub eq-false_of_ne : {b : Bool} → b ≢ true → b ≡ false
eq-false_of_ne {b} h = ground arith

pub true-ne-false : {b : Bool} → b ≡ true → b ≢ false
true-ne-false t f = ground arith

module _ {c : Client} (pc : ℕ → Pc c) (i : ℕ) (p' : Pc c) where
  pub nobody_still :
      ((j : ℕ) → has_front (pc j) ≡ false)
      → has_front p' ≡ false
      → (j : ℕ) → has_front (update pc i p' j) ≡ false
  nobody_still n h j = ground (arith, n j)

  pub nobody_now :
      ((j : ℕ) → has_front (pc j) ≡ true → j ≡ i)
      → has_front p' ≡ false
      → (j : ℕ) → has_front (update pc i p' j) ≡ false
  nobody_now u h j = ground (arith, u j)

  pub only_still :
      (h : ℕ)
      → ((j : ℕ) → has_front (pc j) ≡ true → j ≡ h)
      → has_front p' ≡ false
      → (j : ℕ) → has_front (update pc i p' j) ≡ true
      → j ≡ h
  only_still h u n j t = ground (arith, u j)

  pub only_mover :
      ((j : ℕ) → has_front (pc j) ≡ true → j ≡ i)
      → (j : ℕ) → has_front (update pc i p' j) ≡ true
      → j ≡ i
  only_mover u j t = ground (arith, u j)

  pub front_self : has_front p' ≡ true → has_front (update pc i p' i) ≡ true
  front_self t = ground arith

  pub front_ne : (h : ℕ) → i ≢ h → has_front (pc h) ≡ true → has_front (update pc i p' h) ≡ true
  front_ne h n t = ground arith

  pub Cursor-self : (k : ℕ) → Cursor p' k → Cursor (update pc i p' i) k
  Cursor-self k = subst (λ (p : Pc c). Cursor p k) (sym (update_self pc i p'))

  pub Cursor-ne : (h k : ℕ) → i ≢ h → Cursor (pc h) k → Cursor (update pc i p' h) k
  Cursor-ne h k n = subst (λ (p : Pc c). Cursor p k) (sym (update_ne pc i h p' n))

pub AllAsleep-cong :
    {f f' : ℕ → Option TaskState} {xs ys : List ℕ}
    → f' ≡ f
    → ys ≡ xs
    → AllAsleep f xs
    → AllAsleep f' ys
AllAsleep-cong {f} {f'} {xs} {ys} e o a = rw (e, o) a
