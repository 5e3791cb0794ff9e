-- ===== src/Ending/Served.antt =====
-- All calls are served, however the threads are scheduled.
use mathlib.Core.WellFounded.{Acc}
use native.Mathlib.Decide.{dec_lt}
use contention_queue.Prelude.{
  ℕ, zero, suc, ◌≡◌, ◌≢◌, ◌<◌, ◌⊎◌, inl, inr, some, subst, arith, ℕ_discrete,
}
use contention_queue.Interface.{Client}
use contention_queue.World.{idle, failing}
use contention_queue.System.{System, Reach}
use contention_queue.Finish.{Calm}
use contention_queue.Ending.{Onward}
use contention_queue.Ending.Rest.{AtRest, someone_goes, rests}
use contention_queue.Ending.Calm.{IsCalm, Onward-Calm}
use contention_queue.Ending.Terminates.{calls_end, Reach-Quiet}

-- Each run of moves that go on with calls comes to an end, and can stop only at rest.
pub data ComesToRest {c : Client} (addr : ℕ) : System c → Type 0 where
  rests_or_goes :
      {s : System c}
      → AtRest s ⊎ ((t : System c) × Onward addr s t)
      → ((t : System c) → Onward addr s t → ComesToRest addr t)
      → ComesToRest addr s

module _ {c : Client} {addr : ℕ} where
  -- The first `n` threads are idle, or some thread can go on.
  search_below :
      {s : System c}
      → IsCalm addr s
      → (n : ℕ) → ((j : ℕ) → j < n → s.pc j ≡ idle) ⊎ ((t : System c) × Onward addr s t)
  search_below calm zero = inl (λ j lt. absurd (omega arith))
  search_below {s} calm (suc n) = elim (search_below calm n) [
    | inr goes ↦ inr goes
    | inl all ↦ elim (someone_goes calm.reach calm.calm calm.sound n) [
      | inr goes ↦ inr goes
      | inl last ↦ inl (λ j lt. elim (ℕ_discrete n j) [
        | yes e ↦ subst (λ k. s.pc k ≡ idle) e last
        | no ne ↦ all j (omega arith)
      ])
    ]
  ]

  -- Here a state rests, or some thread can go on.
  rest_or_go : {s : System c} → IsCalm addr s → AtRest s ⊎ ((t : System c) × Onward addr s t)
  rest_or_go {s} calm =
      let (n, quiet) = Reach-Quiet calm.reach in
      elim (search_below calm n) [
        | inr goes ↦ inr goes
        | inl all ↦ inl (
            rests calm.reach calm.sound (λ j. elim (dec_lt j n) [
              | yes below ↦ all j below
              | no above ↦ quiet j (omega arith)
            ]))
      ]

  Acc-rest : {s : System c} → Acc (λ y x. Onward addr x y) s → IsCalm addr s → ComesToRest addr s
  Acc-rest (Acc.intro s later) calm =
      rests_or_goes (rest_or_go calm) (λ t st. Acc-rest (later t st) (Onward-Calm calm st))

-- In every reachable state in which no callback will panic or start another round of a loop, so that
-- each callback ends after the uses of the handle that its tree holds, and no thread has lost a locked
-- guard to a panic: however the threads are scheduled to go on with their calls, they come to an end,
-- and where they end all threads are idle, the queue is empty, and the lock and the front permission
-- are free.
pub all_served :
    {c : Client} {addr : ℕ} {s : System c}
    → Reach addr s
    → ((j : ℕ) → Calm (s.pc j))
    → ((j : ℕ) → s.world.mutex.holder ≡ some j → s.pc j ≢ failing)
    → ComesToRest addr s
all_served r calm sound = Acc-rest (calls_end r) (record { reach = r; calm = calm; sound = sound })
