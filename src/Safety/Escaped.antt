-- ===== src/Safety/Escaped.antt =====
-- What comes of the `mutex.lock()` of the `Err` branch of src/queue.rs if it panics: `std` leaves open
-- whether a lock by the thread that holds the mutex panics or never returns.
use contention_queue.Prelude.{
  ℕ, ◌≡◌, ◌≢◌, refl, sym, ap, ◌∙◌, some_injective, true, false, Bool-cases, inl, inr, none, some,
  update, update-cases, arith,
}
use contention_queue.Interface.{Client}
use contention_queue.World.{World, Pc, exclusive, failing, panicked}
use contention_queue.System.{
  System, Move, Step, pick, Steps, here, next, Reach, client_lock, locks, asks, clears, waits_again,
  resumes,
}
use contention_queue.Invariant.{has_front, is_waiting, holds_lock}
use contention_queue.Invariant.Moves.{Reach-Inv}
use contention_queue.Safety.{front_exclusion}

-- The panic leaves `process_unchecked`, where no guard is a local variable.
unfoldable pub escape : {c : Client} → ℕ → System c → System c
escape i s = record s { pc = update s.pc i panicked }

-- No thread has a guard or the permission.
abbrev IsBystander : {c : Client} → Pc c → Type 0
IsBystander p = (holds_lock p ≡ false) × (has_front p ≡ false)

module _ {c : Client} where
  -- While the lock is held, the move of such a thread leaves the queue and the lock alone.
  Move-IsBystander :
      {addr i : ℕ} {w w' : World c} {p p' : Pc c}
      → Move addr i w p w' p'
      → w.mutex.holder ≢ none
      → IsBystander p
      → (exclusive w' ≡ exclusive w)
        × (w'.cq.front_exclusive ≡ w.cq.front_exclusive)
        × (w'.mutex.holder ≡ w.mutex.holder)
        × IsBystander p'
        × (is_waiting p ≡ true → is_waiting p' ≡ true)
  Move-IsBystander (client_lock free) busy by = absurd (busy free)
  Move-IsBystander (locks free) busy by = absurd (busy free)
  Move-IsBystander (asks free e) busy by = absurd (busy free)
  Move-IsBystander (clears free e) busy by = absurd (busy free)
  Move-IsBystander (waits_again free fi bl e) busy by = absurd (busy free)
  Move-IsBystander (resumes free fi bl turn e) busy by = absurd (busy free)
  Move-IsBystander _ busy by = ground (arith, by)

-- The queue and the lock are as in state `s`, and nobody can use them.
record IsLost {c : Client} (i : ℕ) (s t : System c) : Type 0 where
  queue : exclusive t.world ≡ exclusive s.world
  front : t.world.cq.front_exclusive ≡ s.world.cq.front_exclusive
  locked : t.world.mutex.holder ≡ some i
  nobody : (j : ℕ) → IsBystander (t.pc j)
  waits : (j : ℕ) → is_waiting (s.pc j) ≡ true → is_waiting (t.pc j) ≡ true

module _ {c : Client} {addr : ℕ} (i : ℕ) (s : System c) where
  escape-IsLost :
      Reach addr s → s.pc i ≡ failing → s.world.mutex.holder ≡ some i → IsLost i s (escape i s)
  unfolding escape
  escape-IsLost r at own = record {
    queue = refl;
    front = refl;
    locked = own;
    nobody =
        update-cases s.pc i (λ j p. IsBystander p) panicked (refl, refl)
          (λ j ne. (no_guard j, no_front j ne));
    waits =
        update-cases s.pc i (λ j p. is_waiting (s.pc j) ≡ true → is_waiting p ≡ true) panicked
          (λ w. absurd (ground (arith, at, w))) (λ j ne w. w);
  }
    where
      no_guard : (j : ℕ) → holds_lock (s.pc j) ≡ false
      no_guard j = elim (Bool-cases (holds_lock (s.pc j))) [
        | inr e ↦ e
        | inl e ↦
            let same = some_injective i j (sym own ∙ (Reach-Inv r).lock.locked j e) in
            absurd (ground (arith, e, at, ap s.pc same))
      ]

      no_front : (j : ℕ) → i ≢ j → has_front (s.pc j) ≡ false
      no_front j ne = elim (Bool-cases (has_front (s.pc j))) [
        | inr e ↦ e
        | inl e ↦ absurd (ne (front_exclusion r i j (ap has_front at) e).0)
      ]

  Step-IsLost : {t u : System c} → Step addr t u → IsLost i s t → IsLost i s u
  Step-IsLost {t} (pick j {w} {p} m) lost =
      let (queue, front, holder, by, kept) =
        Move-IsBystander m (λ free. ground (arith, lost.locked)) (lost.nobody j) in
      record {
        queue = queue ∙ lost.queue;
        front = front ∙ lost.front;
        locked = holder ∙ lost.locked;
        nobody = update-cases t.pc j (λ k q. IsBystander q) p by (λ k ne. lost.nobody k);
        waits =
            update-cases t.pc j (λ k q. is_waiting (s.pc k) ≡ true → is_waiting q ≡ true) p
              (λ w. kept (lost.waits j w)) (λ k ne w. lost.waits k w);
      }

  Steps-IsLost : {t u : System c} → Steps addr t u → IsLost i s t → IsLost i s u
  Steps-IsLost here lost = lost
  Steps-IsLost (next steps st) lost = Step-IsLost st (Steps-IsLost steps lost)

-- If the `mutex.lock()` of the `Err` branch panics in a thread that holds the lock itself: then in
-- every later state the lock is still held, although no thread has a guard, `front_locked` is set,
-- although no thread has the permission, the state of the front and the state behind the mutex are as they were, and every thread that waited waits.
pub lock_lost :
    {c : Client} {addr : ℕ} {s u : System c} (i : ℕ)
    → Reach addr s
    → s.pc i ≡ failing
    → s.world.mutex.holder ≡ some i
    → Steps addr (escape i s) u
    → (u.world.mutex.holder ≡ some i)
      × ((exclusive u.world).front_locked ≡ true)
      × ((j : ℕ) → (holds_lock (u.pc j) ≡ false) × (has_front (u.pc j) ≡ false))
      × (exclusive u.world ≡ exclusive s.world)
      × (u.world.cq.front_exclusive ≡ s.world.cq.front_exclusive)
      × ((j : ℕ) → is_waiting (s.pc j) ≡ true → is_waiting (u.pc j) ≡ true)
lock_lost {s = s} i r at own steps =
    let lost = Steps-IsLost i s steps (escape-IsLost i s r at own) in
    let front = (front_exclusion r i i (ap has_front at) (ap has_front at)).1 in
    (
      lost.locked,
      ap (λ q. q.front_locked) lost.queue ∙ front,
      lost.nobody,
      lost.queue,
      lost.front,
      lost.waits,
    )
