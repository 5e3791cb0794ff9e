-- ===== src/Ending/Terminates.antt =====
-- Every run of moves that go on with calls comes to an end.
use mathlib.Core.WellFounded.{Acc}
use contention_queue.Prelude.{
  ℕ, suc, ◌+◌, ◌≡◌, ◌≤◌, ◌<◌, inl, inr, refl, sym, subst, ap, ◌∙◌, Option, none, some, false, List,
  arith, update, update_ne, if◌then◌else◌,
}
use contention_queue.Interface.{Client}
use contention_queue.TaskState.{TaskState, wait}
use contention_queue.World.{World, Pc, idle}
use contention_queue.System.{System, Move, Reach, start, later, pick}
use contention_queue.Ending.{Below, rank, Advances, Onward, onward}
use contention_queue.Ending.Depth.{Acc-Below}
use contention_queue.Ending.Goes.{Blocks, Move-Below, Advances-rank}
use contention_queue.Ending.Many.{
  OneBelow, OneBelow-update, Acc-OneBelow, entries_below, entries_below-update_same, total,
  total-update, Acc-number,
}

-- From thread `n` on, nobody has called.
abbrev pub Quiet : {c : Client} → ℕ → (ℕ → Pc c) → Type 0
Quiet n pc = (j : ℕ) → n ≤ j → pc j ≡ idle

-- A frame whose thread could look at its state byte.
abbrev unblocked : Option TaskState → ℕ
unblocked none = 0
unblocked (some s) = if s.condvar.blocked then 0 else 1

unblocked-wait :
    (s : TaskState) → s.condvar.blocked ≡ false → unblocked (some (wait s)) < unblocked (some s)
unfolding wait
unblocked-wait s awake = ground arith

pub Reach-Quiet : {c : Client} {addr : ℕ} {s : System c} → Reach addr s → (n : ℕ) × Quiet n s.pc
Reach-Quiet (start f m options) = (0, λ j le. refl)
Reach-Quiet (later {s = s} r (pick i {p = p} m)) =
    let (n, quiet) = Reach-Quiet r in
    (n + suc i, λ j le. update_ne s.pc i j p (λ e. omega arith) ∙ quiet j (omega arith))

module _ {c : Client} {n : ℕ} where
  -- Only a thread that has called goes on.
  Advances-below :
      {addr i : ℕ} {s : System c} {w : World c} {p : Pc c} (m : Move addr i s.world (s.pc i) w p)
      → Advances m
      → Quiet n s.pc
      → i < n
  Advances-below {i = i} {s} m on quiet =
      let some_rank = Advances-rank m on in
      let idle_rank = λ (le : n ≤ i). ap rank (quiet i le) in ground (arith, some_rank, idle_rank)

  Quiet-update : (pc : ℕ → Pc c) (i : ℕ) (p : Pc c) → i < n → Quiet n pc → Quiet n (update pc i p)
  Quiet-update pc i p below quiet j le = update_ne pc i j p (λ e. omega arith) ∙ quiet j le

  blocked_less :
      (w : World c) (i : ℕ) {w' : World c} {p p' : Pc c}
      → i < n
      → Blocks i w p w' p'
      → total unblocked n w'.frames < total unblocked n w.frames
  blocked_less w i below (s, live, awake, e, same) =
      let less : unblocked (some (wait s)) < unblocked (w.frames i) =
        subst (λ o. unblocked (some (wait s)) < unblocked o) (sym live) (unblocked-wait s awake) in
      subst (λ (x : World c). total unblocked n x.frames < total unblocked n w.frames) (sym e)
        (total-update unblocked w.frames i (some (wait s)) less n below)

  ends :
      {addr : ℕ} {places : List (Pc c)} {left : ℕ}
      → Acc (OneBelow Below) places
      → Acc ◌<◌ left
      → (s : System c) → Quiet n s.pc
      → entries_below n s.pc ≡ places
      → total unblocked n s.world.frames ≡ left
      → Acc (λ y x. Onward addr x y) s
  ends {addr} (Acc.intro places fewer) (Acc.intro left less) s quiet at count = Acc.intro s (λ t st.
      elim st as (λ t _. Acc (λ y x. Onward addr x y) t) [
        | onward i {w} {p} m on ↦
            let t : System c = record { world = w; pc = update s.pc i p } in
            let below = Advances-below m on quiet in
            let still = Quiet-update s.pc i p below quiet in
            elim (Move-Below m on) [
              | inl deeper ↦
                  ends
                    (fewer (entries_below n (update s.pc i p)) (
                      subst (OneBelow Below (entries_below n (update s.pc i p))) at
                        (OneBelow-update Below s.pc i p n below deeper)))
                    (Acc-number (total unblocked n w.frames)) t still refl refl
              | inr blocks ↦
                  ends (Acc.intro places fewer)
                    (less (total unblocked n w.frames) (
                      subst (λ x. total unblocked n w.frames < x) count
                        (blocked_less s.world i below blocks)))
                    t still (entries_below-update_same s.pc i p blocks.4 n ∙ at) refl
            ]
      ])

pub calls_end :
    {c : Client} {addr : ℕ} {s : System c} → Reach addr s → Acc (λ y x. Onward addr x y) s
calls_end {s = s} r =
    let (n, quiet) = Reach-Quiet r in
    ends (Acc-OneBelow Below Acc-Below (entries_below n s.pc))
      (Acc-number (total unblocked n s.world.frames)) s quiet refl refl
