-- ===== src/Prelude/Family.antt =====
-- What each thread has, as a function of its number.
use mathlib.Core.Logic.{◌≢◌, ite}
use mathlib.Core.Path.{◌≡◌, sym, subst}
use native.Mathlib.Decide.{ℕ_discrete}
use native.Mathlib.Omega.{arith}
use Prim.Native.Nat.{ℕ}

module _ {ℓ} {A : Type ℓ} (frames : ℕ → A) (i : ℕ) where
  -- The entry of thread `i` is replaced.
  abbrev pub update : A → ℕ → A
  update entry = λ thread. ite (ℕ_discrete i thread) entry (frames thread)

  pub update_self : (entry : A) → update entry i ≡ entry
  update_self entry = ground arith

  pub update_ne : (j : ℕ) (entry : A) → i ≢ j → update entry j ≡ frames j
  update_ne j entry other = ground arith

  -- What holds of the new entry, and of the others, holds of every entry.
  pub update-cases {κ} :
      (P : ℕ → A → Type κ) (entry : A)
      → P i entry
      → ((j : ℕ) → i ≢ j → P j (frames j))
      → (j : ℕ) → P j (update entry j)
  update-cases P entry now others j = elim (ℕ_discrete i j) [
    | yes e ↦ subst (λ k. P k (update entry k)) e (subst (P i) (sym (update_self entry)) now)
    | no ne ↦ subst (P j) (sym (update_ne j entry ne)) (others j ne)
  ]
