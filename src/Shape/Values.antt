-- ===== src/Shape/Values.antt =====
-- Which tasks have a value, under a push at the back, a pop at the front and a pop by the handle.
use contention_queue.Prelude.{
  ℕ, zero, suc, ◌≡◌, refl, some, List, [], ◌∷◌, ◌++◌, ap, get_elem?, set, arith,
}
use contention_queue.Task.{ErasedTask}
use contention_queue.Shape.{owners, HasValue, NoValue, Popped}

module _ {ℓ} {V : Type ℓ} where
  pub Popped-append :
      (k : ℕ) (q : List (ErasedTask V)) (t : ErasedTask V)
      → HasValue t.value
      → Popped k q
      → Popped k (q ++ t ∷ [])
  Popped-append zero [] t h p = (h, tt)
  Popped-append zero (x ∷ q) t h p = (p.0, Popped-append zero q t h p.1)
  Popped-append (suc k) [] t h p = absurd p
  Popped-append (suc k) (x ∷ q) t h p = (p.0, Popped-append k q t h p.1)

  -- What the handle finds at its index is a task with a value, or the end of the queue.
  pub Popped-get :
      (k : ℕ) (q : List (ErasedTask V)) (t : ErasedTask V)
      → Popped k q
      → get_elem? q k ≡ some t
      → HasValue t.value
  Popped-get zero [] t p e = absurd (ground arith)
  Popped-get zero (x ∷ q) t p e = ground arith
  Popped-get (suc k) [] t p e = absurd p
  Popped-get (suc k) (x ∷ q) t p e = Popped-get k q t p.1 e

  pub Popped-set :
      (k : ℕ) (q : List (ErasedTask V)) (t u : ErasedTask V)
      → Popped k q
      → get_elem? q k ≡ some t
      → NoValue u.value
      → Popped (suc k) (set q k u)
  Popped-set zero [] t u p e h = absurd (ground arith)
  Popped-set zero (x ∷ q) t u p e h = (h, p.1)
  Popped-set (suc k) [] t u p e h = absurd p
  Popped-set (suc k) (x ∷ q) t u p e h = (p.0, Popped-set k q t u p.1 e h)

  pub owners-set :
      (k : ℕ) (q : List (ErasedTask V)) (t u : ErasedTask V)
      → get_elem? q k ≡ some t
      → u.state ≡ t.state
      → owners (set q k u) ≡ owners q
  owners-set k [] t u e h = refl
  owners-set zero (x ∷ q) t u e h = ground arith
  owners-set (suc k) (x ∷ q) t u e h = ap (◌∷◌ x.state) (owners-set k q t u e h)
