-- ===== src/Ending/Many.antt =====
-- Finitely many threads, each of which has only finitely much left to do.
use mathlib.Core.WellFounded.{Acc}
use contention_queue.Prelude.{
  ℕ, zero, suc, ◌+◌, ◌≡◌, ◌≤◌, ◌<◌, ◌⊎◌, inl, inr, refl, sym, subst, ap, ◌∙◌, List, [], ◌∷◌, arith,
  update, update_self, update_ne, ℕ_discrete,
}

module _ {A : Type 0} (R : A → A → Type 0) where
  -- One entry of the list goes down, and the others stay.
  abbrev pub OneBelow : List A → List A → Type 0
  OneBelow (x ∷ xs) (y ∷ ys) = (R x y × (xs ≡ ys)) ⊎ ((x ≡ y) × OneBelow xs ys)
  OneBelow _ _ = ⊥

  Acc-nil : Acc OneBelow []
  Acc-nil = Acc.intro [] go
    where
      go : (xs : List A) → OneBelow xs [] → Acc OneBelow xs
      go [] b = absurd b
      go (x ∷ xs) b = absurd b

  Acc-cons : {y : A} {ys : List A} → Acc R y → Acc OneBelow ys → Acc OneBelow (y ∷ ys)
  Acc-cons (Acc.intro y f) (Acc.intro ys g) = Acc.intro (y ∷ ys) (λ zs b.
      elim zs as (λ l. OneBelow l (y ∷ ys) → Acc OneBelow l) [
        | [] ↦ λ b. absurd b
        | x ∷ xs ↦ λ b. elim b [
          | inl (r, e) ↦
              subst (λ l. Acc OneBelow (x ∷ l)) (sym e) (Acc-cons (f x r) (Acc.intro ys g))
          | inr (e, o) ↦
              subst (λ z. Acc OneBelow (z ∷ xs)) (sym e) (Acc-cons (Acc.intro y f) (g xs o))
        ]
      ]
        b)

  pub Acc-OneBelow : ((x : A) → Acc R x) → (xs : List A) → Acc OneBelow xs
  Acc-OneBelow acc [] = Acc-nil
  Acc-OneBelow acc (x ∷ xs) = Acc-cons (acc x) (Acc-OneBelow acc xs)

-- The entries of the threads below `n`.
abbrev pub entries_below {ℓ} : {A : Type ℓ} → ℕ → (ℕ → A) → List A
entries_below zero f = []
entries_below (suc n) f = f n ∷ entries_below n f

module _ {ℓ} {A : Type ℓ} (f : ℕ → A) (i : ℕ) (a : A) where
  entries_below-update_ge : (n : ℕ) → n ≤ i → entries_below n (update f i a) ≡ entries_below n f
  entries_below-update_ge zero le = refl
  entries_below-update_ge (suc n) le =
      let here = update_ne f i n a (λ e. omega arith) in
      let rest = entries_below-update_ge n (omega arith) in
      ap (λ x. x ∷ entries_below n (update f i a)) here ∙ ap (λ l. f n ∷ l) rest

  pub entries_below-update_same :
      a ≡ f i → (n : ℕ) → entries_below n (update f i a) ≡ entries_below n f
  entries_below-update_same e zero = refl
  entries_below-update_same e (suc n) =
      let here : update f i a n ≡ f n = elim (ℕ_discrete i n) [
        | yes same ↦ subst (λ k. update f i a k ≡ f k) same (update_self f i a ∙ e)
        | no ne ↦ update_ne f i n a ne
      ] in
      ap (λ x. x ∷ entries_below n (update f i a)) here
      ∙ ap (λ l. f n ∷ l) (entries_below-update_same e n)

module _ {A : Type 0} (R : A → A → Type 0) (f : ℕ → A) (i : ℕ) (a : A) where
  pub OneBelow-update :
      (n : ℕ) → i < n → R a (f i) → OneBelow R (entries_below n (update f i a)) (entries_below n f)
  OneBelow-update zero lt r = absurd (omega arith)
  OneBelow-update (suc n) lt r = elim (ℕ_discrete i n) [
    | yes e ↦ inl (
      subst (λ k. R (update f i a k) (f k)) e (subst (λ x. R x (f i)) (sym (update_self f i a)) r),
      entries_below-update_ge f i a n (omega arith),
    )
    | no ne ↦ inr (update_ne f i n a ne, OneBelow-update n (omega arith) r)
  ]

-- The sum of the weights of the first `n` threads.
abbrev pub total {ℓ} : {A : Type ℓ} → (A → ℕ) → ℕ → (ℕ → A) → ℕ
total weight zero f = 0
total weight (suc n) f = weight (f n) + total weight n f

module _ {ℓ} {A : Type ℓ} (weight : A → ℕ) (f : ℕ → A) (i : ℕ) (a : A) where
  total-update_ge : (n : ℕ) → n ≤ i → total weight n (update f i a) ≡ total weight n f
  total-update_ge zero le = refl
  total-update_ge (suc n) le =
      let here = ap weight (update_ne f i n a (λ e. omega arith)) in
      let rest = total-update_ge n (omega arith) in omega (arith, here, rest)

  pub total-update :
      weight a < weight (f i) → (n : ℕ) → i < n → total weight n (update f i a) < total weight n f
  total-update less zero lt = absurd (omega arith)
  total-update less (suc n) lt = elim (ℕ_discrete i n) [
    | yes e ↦
        let here = ap weight (ap (update f i a) (sym e) ∙ update_self f i a) in
        let there = ap (λ k. weight (f k)) e in
        let rest = total-update_ge n (omega arith) in omega (arith, here, there, rest, less)
    | no ne ↦
        let here = ap weight (update_ne f i n a ne) in
        let rest = total-update less n (omega arith) in omega (arith, here, rest)
  ]

Acc-lt : (k n : ℕ) → n < k → Acc ◌<◌ n
Acc-lt zero n h = elim h [ ]
Acc-lt (suc k) n h = Acc.intro n (λ m hm. Acc-lt k m (omega arith))

pub Acc-number : (n : ℕ) → Acc ◌<◌ n
Acc-number n = Acc-lt (suc n) n (omega arith)
