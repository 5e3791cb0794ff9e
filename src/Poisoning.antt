-- ===== src/Poisoning.antt =====
-- src/poisoning.rs, and `std::sync::Mutex` as the source uses it: who holds the lock, the poison
-- flag, and the protected value.
use contention_queue.Prelude.{ℕ, Bool, true, false, Option, none, some, if◌then◌else◌}

-- What a call that may panic gives.
pub data Outcome {ℓ} (A : Type ℓ) : Type ℓ where
  value : A → Outcome A
  panics : Outcome A

-- `Result<T, PoisonError<T>>`.
pub data LockResult {ℓ} (A : Type ℓ) : Type ℓ where
  ok : A → LockResult A
  poisoned : A → LockResult A

unfoldable pub unwrap_poison {ℓ} : {A : Type ℓ} → LockResult A → Bool → Outcome A
unwrap_poison (ok a) unwrap = value a
unwrap_poison (poisoned a) true = panics
unwrap_poison (poisoned a) false = value a

-- `unwrap_or_else(PoisonError::into_inner)`.
unfoldable pub ignore_poison {ℓ} : {A : Type ℓ} → LockResult A → A
ignore_poison (ok a) = a
ignore_poison (poisoned a) = a

pub record Mutex {ℓ} (M : Type ℓ) : Type ℓ where
  pub holder : Option ℕ
  pub is_poisoned : Bool
  pub inner : M

module _ {ℓ} {M : Type ℓ} where
  -- The return of `lock` to thread `i`; the call returns only while nobody holds the lock.
  unfoldable pub lock : ℕ → Mutex M → LockResult (Mutex M)
  lock i m =
      if m.is_poisoned
      then LockResult.poisoned (record m { holder = some i })
      else ok (record m { holder = some i })

  unfoldable pub drop_guard : Mutex M → Mutex M
  drop_guard m = record m { holder = none }

  -- A guard that is dropped while its thread unwinds poisons the mutex.
  unfoldable pub unwind_guard : Mutex M → Mutex M
  unwind_guard m = record m { holder = none; is_poisoned = true }
