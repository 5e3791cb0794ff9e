-- ===== src/Slots/Reached.antt =====
-- No thread uses a slot that is not initialized, and a guard in a slot is a guard of the mutex.
use contention_queue.Prelude.{
  update-cases, some_injective, ℕ, ◌≡◌, refl, sym, subst, ap, ◌∙◌, inl, inr, Option, some, arith,
  update, update_self, update_ne,
}
use contention_queue.Interface.{Client, Callback}
use contention_queue.Handle.{QueueHandle}
use contention_queue.World.{Pc, running, failing}
use contention_queue.Run.{run_callback}
use contention_queue.System.{System, Reach, start, later, pick}
use contention_queue.Invariant.{LockInv, holds_lock}
use contention_queue.Invariant.Lock.{LockEffect}
use contention_queue.Invariant.Moves.{Reach-Inv, Move-Effect}
use contention_queue.Safety.Hang.{holder-stays}
use contention_queue.Slots.{Slots, vacant, new_slots, slot_callback, SlotReach, begins, continues}
use contention_queue.Slots.Fits.{Fits, Move-Defined, callback-Used}

pub SlotReach-Reach :
    {c : Client} {addr : ℕ} {s : System c} {slots : ℕ → Slots}
    → SlotReach addr s slots
    → Reach addr s
SlotReach-Reach (begins f m options) = start f m options
SlotReach-Reach (continues i h m e) = later (SlotReach-Reach h) (pick i m)

-- The moves of other threads leave the slots of thread `i` fitting.
Fits-keeps :
    {c : Client} (i j : ℕ) {h h' : Option ℕ} {pc : ℕ → Pc c} {q q' : Pc c} (p : Pc c) (s : Slots)
    → LockInv h pc
    → LockEffect j h q h' q'
    → pc j ≡ q
    → ¬ (i ≡ j)
    → Fits i h p s
    → Fits i h' p s
Fits-keeps i j failing s inv e at ne (inl empty) = inl empty
Fits-keeps i j failing s inv e at ne (inr (leaked, own)) =
    inr (leaked, holder-stays i j inv e at ne own)
Fits-keeps i j _ s inv e at ne fits = fits

SlotReach-Fits :
    {c : Client} {addr : ℕ} {s : System c} {slots : ℕ → Slots}
    → SlotReach addr s slots
    → (j : ℕ) → Fits j s.world.mutex.holder (s.pc j) (slots j)
SlotReach-Fits (begins f m options) j = refl
SlotReach-Fits (continues {s} {slots} i {w} {p} {x} h m e) j =
    let inv = Reach-Inv (SlotReach-Reach h) in
    let (y, e', fits) =
      Move-Defined i s.world m (slots i) (SlotReach-Fits h i) (inv.lock.locked i) in
    let now : Fits i w.mutex.holder p x =
      subst (Fits i w.mutex.holder p) (some_injective y x (sym e' ∙ e)) fits in
    update-cases s.pc i (λ j q. Fits j w.mutex.holder q (update slots i x j)) p
      (subst (Fits i w.mutex.holder p) (sym (update_self slots i x)) now)
      (λ k other. subst (Fits k w.mutex.holder (s.pc k)) (sym (update_ne slots i k x other)) (
        Fits-keeps k i (s.pc k) (slots k) inv.lock (Move-Effect inv.front refl m).lock refl
          (λ z. other (sym z)) (SlotReach-Fits h k)))
      j

-- Every state that can be reached is reached without a use of a slot that is not initialized.
slots_reached :
    {c : Client} {addr : ℕ} {s : System c}
    → Reach addr s
    → (slots : ℕ → Slots) × SlotReach addr s slots
slots_reached (start f m options) = (_, begins f m options)
slots_reached (later {s = s} r (pick i m)) =
    let (slots, h) = slots_reached r in
    let (x, e, fits) =
      Move-Defined i s.world m (slots i) (SlotReach-Fits h i) ((Reach-Inv r).lock.locked i) in
    (_, continues i h m e)

module _ {c : Client} {addr : ℕ} {s : System c} {slots : ℕ → Slots} (r : SlotReach addr s slots)
    (i : ℕ) where
  -- In every reachable state, each use that a running callback makes of its handle finds the slots
  -- initialized that it goes through, and does what the callback's step says.
  pub callback_defined :
      (h : QueueHandle) (k : Callback c)
      → s.pc i ≡ running h k
      → (x : Slots) × (slot_callback s.world h (slots i) k ≡ some (x, run_callback s.world h k))
  callback_defined h k at =
      let full : slots i ≡ new_slots i =
        subst (λ (p : Pc c). Fits i s.world.mutex.holder p (slots i)) at (SlotReach-Fits r i) in
      let own : s.world.mutex.holder ≡ some i =
        (Reach-Inv (SlotReach-Reach r)).lock.locked i (ap holds_lock at) in
      let (x, e, fits) = callback-Used i s.world h k own in
      (x, ap (λ y. slot_callback s.world h y k) full ∙ e)

  -- In every reachable state, a guard in a slot of a thread, also one that a panic has left there, is
  -- a guard of that thread, which holds the lock.
  pub slot_guard : (j : ℕ) → (slots i).guard ≡ some j → (j ≡ i) × (s.world.mutex.holder ≡ some i)
  slot_guard j has = go (s.pc i) refl (SlotReach-Fits r i)
    where
      none_left : slots i ≡ vacant → (j ≡ i) × (s.world.mutex.holder ≡ some i)
      none_left e = absurd (ground (arith, has, ap (λ y. y.guard) e))

      own : slots i ≡ new_slots i → j ≡ i
      own e = some_injective j i (sym has ∙ ap (λ y. y.guard) e)

      go :
          (p : Pc c)
          → s.pc i ≡ p
          → Fits i s.world.mutex.holder p (slots i)
          → (j ≡ i) × (s.world.mutex.holder ≡ some i)
      go (running h k) at full =
          (own full, (Reach-Inv (SlotReach-Reach r)).lock.locked i (ap holds_lock at))
      go failing at (inl e) = none_left e
      go failing at (inr (e, holds)) = (some_injective j i (sym has ∙ ap (λ y. y.guard) e), holds)
      go _ at e = none_left e
