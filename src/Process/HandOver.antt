-- ===== src/Process/HandOver.antt =====
-- The branches of the end of `process_unchecked`: the front permission is released if the queue is
-- empty, and otherwise goes to the thread of the front task.
use contention_queue.Prelude.{
  ℕ, ◌≡◌, refl, ◌⊎◌, inl, inr, false, true, some, List, [], ◌∷◌, update, ap, arith, Option-cases,
}
use contention_queue.Interface.{Client, ProcessResult}
use contention_queue.Poisoning.{ignore_poison, lock, drop_guard}
use contention_queue.Task.{ErasedTask, inner}
use contention_queue.TaskState.{TaskState, wake_front_task, wake_front_task_panicking}
use contention_queue.World.{
  World, exclusive, set_exclusive, set_frames, set_mutex, Pc, returned, panicked,
}
use contention_queue.Process.{hand_over, settle, fail}

List-cases {ℓ} : {A : Type ℓ} (xs : List A) → (xs ≡ []) ⊎ ((x : A) × (r : List A) × (xs ≡ x ∷ r))
List-cases [] = inl refl
List-cases (x ∷ r) = inr (x, r, refl)

module _ {c : Client} (wake : TaskState → TaskState) where
  -- The state after the permission has been released, or transferred to the owner of `t`.
  abbrev pub HandedOver : World c → World c → Type 0
  HandedOver w w' =
      (((exclusive w).queue ≡ [])
        × (w' ≡ set_exclusive (record (exclusive w) { front_locked = false }) w))
      ⊎ ((t : ErasedTask c.Value) × (rest : List (ErasedTask c.Value)) × (s : TaskState)
          × ((exclusive w).queue ≡ t ∷ rest)
          × (w.frames t.state ≡ some s)
          × (w' ≡ set_frames (update w.frames t.state (some (wake s))) w))

  pub hand_over-some : (w w' : World c) → hand_over wake w ≡ some w' → HandedOver w w'
  unfolding hand_over inner
  hand_over-some w w' h = elim (List-cases (exclusive w).queue) [
    | inl e ↦ inl (e, ground arith)
    | inr (t, rest, e) ↦ elim (Option-cases (w.frames t.state)) [
      | inl dangling ↦ absurd (ground arith)
      | inr (s, live) ↦ inr (t, rest, s, e, live, ground arith)
    ]
  ]

  -- With a live front task, or none, the hand-over succeeds.
  pub hand_over_returns :
      (w : World c)
      → ((t : ErasedTask c.Value) (rest : List (ErasedTask c.Value))
          → (exclusive w).queue ≡ t ∷ rest
          → (s : TaskState) × (w.frames t.state ≡ some s))
      → (w' : World c) × (hand_over wake w ≡ some w')
  unfolding hand_over inner
  hand_over_returns w live = elim (List-cases (exclusive w).queue) [
    | inl e ↦ (set_exclusive (record (exclusive w) { front_locked = false }) w, ground arith)
    | inr (t, rest, e) ↦
        let (s, ls) = live t rest e in
        (set_frames (update w.frames t.state (some (wake s))) w, ground arith)
  ]

  pub HandedOver-same :
      (w w' : World c)
      → HandedOver w w'
      → (w'.mutex ≡ w.mutex) × (w'.cq.mutex_address ≡ w.cq.mutex_address)
  HandedOver-same w w' (inl (e, eq)) =
      (ap (λ (x : World c). x.mutex) eq, ap (λ (x : World c). x.cq.mutex_address) eq)
  HandedOver-same w w' (inr (t, rest, s, e, live, eq)) =
      (ap (λ (x : World c). x.mutex) eq, ap (λ (x : World c). x.cq.mutex_address) eq)

module _ {c : Client} where
  -- The state in which the `Err` branch hands over: locked by `i`, and poisoned.
  abbrev pub poisoned_by : ℕ → World c → World c
  poisoned_by i w =
      let locked : World c = set_mutex (ignore_poison (lock i w.mutex)) w in
      set_exclusive (record (exclusive w) { queue_poisoned = true }) locked

  pub settle-some :
      (w : World c) (result : ProcessResult c.Return) {r : World c × Pc c}
      → settle w result ≡ some r
      → (w' : World c) × HandedOver wake_front_task w w' × (r ≡ (w', returned result))
  unfolding settle
  settle-some w result {r} h = elim (Option-cases (hand_over wake_front_task w)) [
    | inl e ↦ absurd (ground arith)
    | inr (w', e) ↦ (w', hand_over-some wake_front_task w w' e, ground arith)
  ]

  pub fail-some :
      (i : ℕ) (w : World c) {r : World c × Pc c}
      → fail i w ≡ some r
      → (w' : World c) × HandedOver wake_front_task_panicking (poisoned_by i w) w'
        × (r ≡ (set_mutex (drop_guard w'.mutex) w', panicked))
  unfolding fail
  fail-some i w {r} h =
      elim (Option-cases (hand_over wake_front_task_panicking (poisoned_by i w))) [
        | inl e ↦ absurd (ground arith)
        | inr (w', e) ↦
            (w', hand_over-some wake_front_task_panicking (poisoned_by i w) w' e, ground arith)
      ]
