-- ===== src/Slots.antt =====
-- The `MaybeUninit` slots behind a `QueueHandle` of src/queue_handle.rs: the guard of the mutex and
-- the reference to `mutex_exclusive`, which `unlocked` takes out of their slots and puts back.
pub mod Fits
pub mod Reached
use contention_queue.Prelude.{ℕ, ◌≡◌, Option, none, some, update}
use contention_queue.Interface.{Client, Callback, PanicOptions}
use contention_queue.Poisoning.{ignore_poison, lock, drop_guard}
use contention_queue.Handle.{QueueHandle}
use contention_queue.Process.{process}
use contention_queue.World.{World, set_mutex, Pc, running, unlocked, failing}
use contention_queue.Run.{run_callback}
use contention_queue.System.{System, Move, enters, resumes, runs, re_locks, fails, init}

-- `none` stands for memory that is not initialized.
abbrev pub MaybeUninit : Type 0 → Type 0
MaybeUninit A = Option A

-- The guard is known by the thread that locked the mutex.
pub record Slots : Type 0 where
  pub guard : MaybeUninit ℕ
  pub mutex_exclusive_guard : MaybeUninit Unit

abbrev pub vacant : Slots
vacant = record { guard = none; mutex_exclusive_guard = none }

-- `assume_init_ref` and its like: `none` stands for undefined behaviour.
unfoldable pub assume_init {ℓ} : {A : Type 0} {B : Type ℓ} → MaybeUninit A → B → Option B
assume_init none b = none
assume_init (some a) b = some b

-- `QueueHandle::new`, with the guard that the thread moved into the slot before.
abbrev pub new_slots : ℕ → Slots
new_slots i = record { guard = some i; mutex_exclusive_guard = some tt }

module _ {c : Client} where
  -- `ReLock::new`: discards the reference, then drops the guard in place.
  unfoldable pub re_lock_new : World c → Slots → Option (Slots × World c)
  unfolding assume_init
  re_lock_new w s =
      let discarded : Slots = record s { mutex_exclusive_guard = none } in
      assume_init discarded.guard
        (record discarded { guard = none }, set_mutex (drop_guard w.mutex) w)

  -- `ReLock::drop`: locks the mutex, then writes both slots.
  unfoldable pub re_lock_drop : ℕ → World c → Slots → Slots × World c
  re_lock_drop i w s =
      let locked : World c = set_mutex (ignore_poison (lock i w.mutex)) w in
      (record s { guard = some i; mutex_exclusive_guard = some tt }, locked)

  unfoldable pub mutex_state : World c → Slots → Option c.MutexState
  unfolding assume_init
  mutex_state w s = assume_init s.guard w.mutex.inner

  -- A write through the reference that `mutex_state_mut` gives.
  unfoldable pub mutex_state_mut : c.MutexState → World c → Slots → Option (World c)
  unfolding assume_init
  mutex_state_mut m w s = assume_init s.guard (set_mutex (record (w.mutex) { inner = m }) w)

  -- What is left of the slots where a use of the handle ends: a panic drops the handle, and leaks the
  -- guard in its slot.
  abbrev pub leaves : Slots → World c × Pc c → Slots × (World c × Pc c)
  leaves s (w, failing) = (record s { mutex_exclusive_guard = none }, (w, failing))
  leaves s r = (s, r)

  -- One use of the handle, with the slots that it goes through. A callback that returns is followed by
  -- the `assume_init` that moves the guard out of its slot.
  unfoldable pub slot_callback :
      World c → QueueHandle → Slots → Callback c → Option (Slots × (World c × Pc c))
  unfolding assume_init re_lock_new mutex_state mutex_state_mut
  slot_callback w h s (Callback.return r) =
      assume_init s.guard (vacant, run_callback w h (Callback.return r))
  slot_callback w h s Callback.panic = some (leaves s (run_callback w h Callback.panic))
  slot_callback w h s Callback.again = some (leaves s (run_callback w h Callback.again))
  slot_callback w h s (Callback.peek k) =
      assume_init s.mutex_exclusive_guard (leaves s (run_callback w h (Callback.peek k)))
  slot_callback w h s (Callback.pop k) =
      assume_init s.mutex_exclusive_guard (leaves s (run_callback w h (Callback.pop k)))
  slot_callback w h s (Callback.mutex_state k) = elim (mutex_state w s) [
    | none ↦ none
    | some m ↦ some (s, (w, running h (k m)))
  ]
  slot_callback w h s (Callback.set_mutex_state m k) = elim (mutex_state_mut m w s) [
    | none ↦ none
    | some w' ↦ some (s, (w', running h k))
  ]
  slot_callback w h s (Callback.front_state k) =
      some (leaves s (run_callback w h (Callback.front_state k)))
  slot_callback w h s (Callback.set_front_state f k) =
      some (leaves s (run_callback w h (Callback.set_front_state f k)))
  slot_callback w h s (Callback.unlocked k) = elim (re_lock_new w s) [
    | none ↦ none
    | some (s', w') ↦ some (s', (w', unlocked h k))
  ]
  slot_callback w h s (Callback.is_queue_poisoned k) =
      assume_init s.mutex_exclusive_guard
        (leaves s (run_callback w h (Callback.is_queue_poisoned k)))
  slot_callback w h s (Callback.clear_queue_poison k) =
      assume_init s.mutex_exclusive_guard
        (leaves s (run_callback w h (Callback.clear_queue_poison k)))

  -- A thread that gets to its callback fills the slots.
  abbrev pub enters_callback : ℕ → Pc c → Slots → Slots
  enters_callback i (running h k) s = new_slots i
  enters_callback i _ s = s

  abbrev pub slots_of : Option (Slots × (World c × Pc c)) → Option Slots
  slots_of none = none
  slots_of (some r) = some r.0

  -- What a move does to the slots of its thread.
  abbrev pub slot_move :
      {addr i : ℕ} {w w' : World c} {p p' : Pc c} → Move addr i w p w' p' → Slots → Option Slots
  slot_move {addr} {i} {w} (enters {v} {task}) s =
      some (enters_callback i (process addr i w v task).1 s)
  slot_move {i = i} (resumes {r} free live awake turn e) s = some (enters_callback i r.1 s)
  slot_move {w = w} (runs {h} {k}) s = slots_of (slot_callback w h s k)
  slot_move {i = i} {w} (re_locks output free) s = some (re_lock_drop i w s).0
  slot_move (fails free e) s = some vacant
  slot_move _ s = some s

-- The states that can be reached without a use of memory that is not initialized.
pub data SlotReach {c : Client} (addr : ℕ) : System c → (ℕ → Slots) → Type 0 where
  begins :
      (f : c.FrontState) (m : c.MutexState) (options : PanicOptions)
      → SlotReach addr (init f m options) (λ _. vacant)
  continues :
      {s : System c} {slots : ℕ → Slots} (i : ℕ) {w : World c} {p : Pc c} {x : Slots}
      → SlotReach addr s slots
      → (m : Move addr i s.world (s.pc i) w p) → slot_move m (slots i) ≡ some x
      → SlotReach addr (record { world = w; pc = update s.pc i p }) (update slots i x)
