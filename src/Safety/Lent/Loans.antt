-- ===== src/Safety/Lent/Loans.antt =====
-- A thread whose value is borrowed waits until the borrower's callback is over.
use contention_queue.Prelude.{
  ℕ, ◌≡◌, ◌≢◌, ◌⊎◌, inl, inr, refl, sym, ap, ◌∙◌, true, false, Bool, Option, none, some, get_elem?,
  update, update_self, update_ne, update-cases, ℕ_discrete, arith, Option-cases, some_injective,
}
use contention_queue.Interface.{Client, Callback}
use contention_queue.Handle.{QueueHandle}
use contention_queue.World.{World, Pc, exclusive}
use contention_queue.System.{System, Move, Reach, later, pick, runs}
use contention_queue.Shape.{is_live}
use contention_queue.Invariant.{is_waiting, has_front}
use contention_queue.Invariant.Moves.{Reach-Inv}
use contention_queue.Invariant.Front.Moved.{true-ne-false}
use contention_queue.Order.Own.{get-owner}
use contention_queue.Safety.{front_exclusion}
use contention_queue.Safety.Aliasing.{refers_to_front}
use contention_queue.Safety.Progress.{Move-waiting}
use contention_queue.Safety.Lent.{
  Lends, begins, continues, Lends-Reach, borrows_from, borrowed, lends_to, kept_by,
}

-- Thread `b` borrows from thread `j`, which waits.
abbrev Pledge : {c : Client} → (ℕ → Pc c) → ℕ → ℕ → Type 0
Pledge pc j b = (is_waiting (pc j) ≡ true) × (refers_to_front (pc b) ≡ true)

kept-some :
    (i b : ℕ) (live : Bool) (o : Option ℕ)
    → kept_by i live o ≡ some b
    → (o ≡ some b) × (b ≡ i → live ≡ true)
kept-some i b live none e = absurd (ground arith)
kept-some i b true (some j) e = (e, λ _. refl)
kept-some i b false (some j) e = ground arith

lends-some :
    (i : ℕ) (o : Option ℕ) (lent : ℕ → Option ℕ) (j b : ℕ)
    → lends_to i o lent j ≡ some b
    → ((o ≡ some j) × (b ≡ i)) ⊎ (lent j ≡ some b)
lends-some i none lent j b e = inr e
lends-some i (some k) lent j b e = elim (ℕ_discrete k j) [
  | yes own ↦ inl (
    ap some own,
    some_injective b i
        (sym e ∙ ap (update lent k (some i)) (sym own) ∙ update_self lent k (some i)),
  )
  | no ne ↦ inr (sym (update_ne lent k j (some i) ne) ∙ e)
]

waiting-front : {c : Client} (p : Pc c) → is_waiting p ≡ true → has_front p ≡ false
waiting-front p h = ground arith

front_of : {c : Client} (p : Pc c) → refers_to_front p ≡ true → has_front p ≡ true
front_of p h = ground arith

module _ {c : Client} {addr : ℕ} {s : System c} (r : Reach addr s) where
  pops-waiting :
      (h : QueueHandle) (k : Callback c) (j : ℕ)
      → borrows_from s.world h k ≡ some j
      → is_waiting (s.pc j) ≡ true
  pops-waiting h (Callback.pop k) j e =
      elim (Option-cases (get_elem? (exclusive s.world).queue h.next_idx)) [
        | inl gone ↦ absurd (ground arith)
        | inr (t, found) ↦
            let same : t.state ≡ j = ground arith in
            ap (λ x. is_waiting (s.pc x)) (sym same)
            ∙ sym ((Reach-Inv r).front.queued t.state)
            ∙ get-owner h.next_idx (exclusive s.world).queue t found
      ]
  pops-waiting h _ j e = absurd (ground arith)

module _ {c : Client} {addr i : ℕ} {s : System c} (r : Reach addr s) where
  -- A task that a callback pops is that of a thread that waits.
  borrowed-waiting :
      {w : World c} {p p' : Pc c} (m : Move addr i s.world p w p') (j : ℕ)
      → s.pc i ≡ p
      → borrowed m ≡ some j
      → (is_waiting (s.pc j) ≡ true) × (is_waiting (s.pc i) ≡ false)
  borrowed-waiting (runs {h} {k}) j at e = (pops-waiting r h k j e, ap is_waiting at)
  borrowed-waiting _ j at e = absurd (ground arith)

  new_loan :
      {w : World c} {p : Pc c} (m : Move addr i s.world (s.pc i) w p) (j : ℕ)
      → borrowed m ≡ some j
      → refers_to_front p ≡ true
      → Pledge (update s.pc i p) j i
  new_loan {p = p} m j e live =
      let (waits, out) = borrowed-waiting m j refl e in
      let apart : i ≢ j = λ x. true-ne-false waits (ap (λ k. is_waiting (s.pc k)) (sym x) ∙ out) in
      (
        ap is_waiting (update_ne s.pc i j p apart) ∙ waits,
        ap refers_to_front (update_self s.pc i p) ∙ live,
      )

  old_loan :
      {w : World c} {p : Pc c} (m : Move addr i s.world (s.pc i) w p) (j b : ℕ)
      → Pledge s.pc j b
      → (b ≡ i → refers_to_front p ≡ true)
      → Pledge (update s.pc i p) j b
  old_loan {w} {p} m j b (waits, borrows) live = (
    update-cases s.pc i (λ k q. is_waiting (s.pc k) ≡ true → k ≡ j → is_waiting q ≡ true) p mover
        (λ k ne at same. at) j waits refl,
    still,
  )
    where
      still : refers_to_front (update s.pc i p b) ≡ true
      still =
          update-cases s.pc i (λ k q. k ≡ b → refers_to_front q ≡ true) p (λ e. live (sym e))
            (λ k ne e. ap (λ x. refers_to_front (s.pc x)) e ∙ borrows) b refl

      mover : is_waiting (s.pc i) ≡ true → i ≡ j → is_waiting p ≡ true
      mover at same = elim (Move-waiting m at) [
        | inl on ↦ on
        | inr front ↦
            let one =
              (front_exclusion (later r (pick i m)) i b
                (ap has_front (update_self s.pc i p) ∙ front)
                (front_of (update s.pc i p b) still)).0 in
            absurd (
              true-ne-false (front_of (s.pc i) (ap (λ x. refers_to_front (s.pc x)) one ∙ borrows))
                (waiting-front (s.pc i) at))
      ]

loans :
    {c : Client} {addr : ℕ} {s : System c} {lent : ℕ → Option ℕ}
    → Lends addr s lent
    → (j b : ℕ) → lent j ≡ some b
    → (is_waiting (s.pc j) ≡ true) × (refers_to_front (s.pc b) ≡ true)
loans (begins f m options) j b e = absurd (ground arith)
loans (continues {s} {lent} i {w} {p} h m) j b e =
    let (before, live) = kept-some i b (refers_to_front p) (lends_to i (borrowed m) lent j) e in
    elim (lends-some i (borrowed m) lent j b before) [
      | inl (new, own) ↦
          let loan = new_loan (Lends-Reach h) m j new (live own) in
          (loan.0, ap (λ x. refers_to_front (update s.pc i p x)) own ∙ loan.1)
      | inr old ↦ old_loan (Lends-Reach h) m j b (loans h j b old) live
    ]

-- In every reachable state, while a callback that has popped a value is not over, also in the closure
-- of `unlocked`, the thread that has submitted the value still waits, and its stack frame is live.
pub lent_alive :
    {c : Client} {addr : ℕ} {s : System c} {lent : ℕ → Option ℕ}
    → Lends addr s lent
    → (j b : ℕ) → lent j ≡ some b
    → (is_waiting (s.pc j) ≡ true)
      × (is_live (s.world.frames j) ≡ true)
      × (refers_to_front (s.pc b) ≡ true)
lent_alive {s = s} h j b e =
    let (waits, borrows) = loans h j b e in
    (waits, (Reach-Inv (Lends-Reach h)).front.live j ∙ waits, borrows)
