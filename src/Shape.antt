-- ===== src/Shape.antt =====
-- The shape of the queue of src/queue_state.rs: whose tasks it holds, which of them sleep, and that
-- the tasks with a value stand behind those without.
pub mod Owners
pub mod Values
use contention_queue.Prelude.{
  ℕ, zero, suc, ◌≡◌, ◌⊎◌, Bool, true, false, ◌||◌, Option, none, some, List, [], ◌∷◌, ◌==◌,
}
use contention_queue.TaskState.{TaskState}
use contention_queue.Task.{ErasedTask}

abbrev pub owners {ℓ} : {V : Type ℓ} → List (ErasedTask V) → List ℕ
owners [] = []
owners (t ∷ q) = t.state ∷ owners q

abbrev pub owns : ℕ → List ℕ → Bool
owns i [] = false
owns i (x ∷ xs) = x == i || owns i xs

abbrev pub Distinct : List ℕ → Type 0
Distinct [] = Unit
Distinct (x ∷ xs) = (owns x xs ≡ false) × Distinct xs

abbrev pub is_live : Option TaskState → Bool
is_live none = false
is_live (some s) = true

-- A live frame whose thread has not been made the front.
abbrev pub Asleep : Option TaskState → Type 0
Asleep none = ⊥
Asleep (some s) = s.state ≡ 0

-- A live frame whose thread is the front and has been notified.
abbrev pub Awake : Option TaskState → Type 0
Awake none = ⊥
Awake (some s) = ((s.state ≡ 1) ⊎ (s.state ≡ 3)) × (s.condvar.blocked ≡ false)

abbrev pub AllAsleep : (ℕ → Option TaskState) → List ℕ → Type 0
AllAsleep f [] = Unit
AllAsleep f (x ∷ xs) = Asleep (f x) × AllAsleep f xs

abbrev pub HasValue {ℓ} : {V : Type ℓ} → Option V → Type 0
HasValue none = ⊥
HasValue (some v) = Unit

abbrev pub NoValue {ℓ} : {V : Type ℓ} → Option V → Type 0
NoValue none = Unit
NoValue (some v) = ⊥

-- The first `k` tasks have lost their values, and the others have them.
abbrev pub Popped {ℓ} : {V : Type ℓ} → ℕ → List (ErasedTask V) → Type 0
Popped zero [] = Unit
Popped zero (t ∷ q) = HasValue t.value × Popped zero q
Popped (suc k) [] = ⊥
Popped (suc k) (t ∷ q) = NoValue t.value × Popped k q
