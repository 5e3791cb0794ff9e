-- ===== src/Shape/Owners.antt =====
-- Whose tasks are queued, under a push at the back and a write to a frame.
use contention_queue.Prelude.{
  ℕ, ◌≡◌, refl, true, false, ◌||◌, Option, some, List, [], ◌∷◌, ◌++◌, ◌==◌, update, arith, ap,
}
use contention_queue.TaskState.{TaskState}
use contention_queue.Task.{ErasedTask}
use contention_queue.Shape.{owners, owns, Distinct, Asleep, AllAsleep}

pub owners-append {ℓ} :
    {V : Type ℓ} (q r : List (ErasedTask V)) → owners (q ++ r) ≡ owners q ++ owners r
owners-append [] r = refl
owners-append (t ∷ q) r = ap (◌∷◌ t.state) (owners-append q r)

pub owns-append : (j i : ℕ) (xs : List ℕ) → owns j (xs ++ i ∷ []) ≡ (owns j xs || i == j)
owns-append j i [] = ground arith
owns-append j i (x ∷ xs) = ground (arith, owns-append j i xs)

pub Distinct-append :
    (i : ℕ) (xs : List ℕ) → owns i xs ≡ false → Distinct xs → Distinct (xs ++ i ∷ [])
Distinct-append i [] h d = (refl, tt)
Distinct-append i (x ∷ xs) h d = ground (arith, owns-append x i xs, Distinct-append i xs)

module _ (f : ℕ → Option TaskState) (i : ℕ) where
  pub AllAsleep-update :
      (o : Option TaskState) (xs : List ℕ)
      → owns i xs ≡ false
      → AllAsleep f xs
      → AllAsleep (update f i o) xs
  AllAsleep-update o [] h a = tt
  AllAsleep-update o (x ∷ xs) h a = ground (arith, AllAsleep-update o xs)

  pub AllAsleep-update_asleep :
      (s : TaskState) (xs : List ℕ)
      → s.state ≡ 0
      → AllAsleep f xs
      → AllAsleep (update f i (some s)) xs
  AllAsleep-update_asleep s [] h a = tt
  AllAsleep-update_asleep s (x ∷ xs) h a = ground (arith, AllAsleep-update_asleep s xs h)

pub AllAsleep-append :
    (f : ℕ → Option TaskState) (xs : List ℕ) (i : ℕ)
    → AllAsleep f xs
    → Asleep (f i)
    → AllAsleep f (xs ++ i ∷ [])
AllAsleep-append f [] i a h = (h, tt)
AllAsleep-append f (x ∷ xs) i a h = (a.0, AllAsleep-append f xs i a.1 h)

-- A thread that owns a task is asleep.
pub AllAsleep-owns :
    (f : ℕ → Option TaskState) (i : ℕ) (xs : List ℕ)
    → AllAsleep f xs
    → owns i xs ≡ true
    → Asleep (f i)
AllAsleep-owns f i [] a h = absurd (ground arith)
AllAsleep-owns f i (x ∷ xs) a h = ground (arith, AllAsleep-owns f i xs)
