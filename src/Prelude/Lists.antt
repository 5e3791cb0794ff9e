-- ===== src/Prelude/Lists.antt =====
-- Lists measured and indexed by native numbers, under the library's names.
use Prim.Native.Nat.{ℕ, zero, suc}
use mathlib.Core.List.{List, [], ◌∷◌, ◌++◌}
use mathlib.Core.Logic.{◌≢◌}
use mathlib.Core.Path.{◌≡◌, refl, ap}
use native.Mathlib.Omega.{arith}
use mathlib.Core.Option.{Option, none, some}

module _ {ℓ} {A : Type ℓ} where
  abbrev pub length : List A → ℕ
  length [] = 0
  length (x ∷ xs) = suc (length xs)

  abbrev pub get_elem? : List A → ℕ → Option A
  get_elem? [] i = none
  get_elem? (x ∷ xs) zero = some x
  get_elem? (x ∷ xs) (suc i) = get_elem? xs i

  -- A write out of bounds changes nothing.
  abbrev pub set : List A → ℕ → A → List A
  set [] i v = []
  set (x ∷ xs) zero v = v ∷ xs
  set (x ∷ xs) (suc i) v = x ∷ set xs i v

  abbrev pub head? : List A → Option A
  head? [] = none
  head? (x ∷ xs) = some x

  abbrev pub tail : List A → List A
  tail [] = []
  tail (x ∷ xs) = xs

pub get_elem?-append {ℓ} :
    {A : Type ℓ} (xs ys : List A) (n : ℕ) (a : A)
    → get_elem? xs n ≡ some a
    → get_elem? (xs ++ ys) n ≡ some a
get_elem?-append [] ys n a e = absurd (ground arith)
get_elem?-append (x ∷ xs) ys zero a e = e
get_elem?-append (x ∷ xs) ys (suc n) a e = get_elem?-append xs ys n a e

pub get_elem?-set_ne {ℓ} :
    {A : Type ℓ} (xs : List A) (k n : ℕ) (a : A) → k ≢ n → get_elem? (set xs k a) n ≡ get_elem? xs n
get_elem?-set_ne [] k n a ne = refl
get_elem?-set_ne (x ∷ xs) zero zero a ne = absurd (ne refl)
get_elem?-set_ne (x ∷ xs) zero (suc n) a ne = refl
get_elem?-set_ne (x ∷ xs) (suc k) zero a ne = refl
get_elem?-set_ne (x ∷ xs) (suc k) (suc n) a ne = get_elem?-set_ne xs k n a (λ e. ne (ap suc e))
