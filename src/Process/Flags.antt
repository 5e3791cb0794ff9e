-- ===== src/Process/Flags.antt =====
-- `is_queue_poisoned` and `clear_queue_poison` of src/queue.rs: what they read and what they change.
use contention_queue.Prelude.{ℕ, ◌≡◌, false, none, Bool, arith, inl, inr}
use contention_queue.Interface.{Client}
use contention_queue.Poisoning.{value, drop_guard}
use contention_queue.QueueState.{MutexExclusive}
use contention_queue.Queue.{assert_mutex_good}
use contention_queue.Queue.Address.{assert_mutex_good-value}
use contention_queue.World.{World, exclusive}
use contention_queue.Process.{is_queue_poisoned, clear_queue_poison}
use contention_queue.Process.Branches.{Outcome-cases}

module _ {c : Client} where
  -- The state after a visit that leaves `q` behind the mutex.
  pub record Visited (addr : ℕ) (w w' : World c) (q : MutexExclusive c.Value) : Type 0 where
    pub address : w'.cq.mutex_address ≡ addr
    pub holder : w'.mutex.holder ≡ none
    pub contents : exclusive w' ≡ q
    pub frames : w'.frames ≡ w.frames
    pub front_state : w'.cq.front_exclusive ≡ w.cq.front_exclusive
    pub options : w'.cq.options ≡ w.cq.options

  -- A call that returns has cleared the flag and changed nothing else of the queue.
  pub clear_queue_poison-Visited :
      (addr i : ℕ) (w w' : World c)
      → clear_queue_poison addr i w ≡ value w'
      → Visited addr w w' (record (exclusive w) { queue_poisoned = false })
  unfolding clear_queue_poison drop_guard
  clear_queue_poison-Visited addr i w w' h =
      elim (Outcome-cases (assert_mutex_good w.cq.mutex_address addr)) [
        | inl e ↦ absurd (ground arith)
        | inr (a, e) ↦
            let good = assert_mutex_good-value w.cq.mutex_address addr a e in
            record {
              address = ground arith;
              holder = ground arith;
              contents = ground arith;
              frames = ground arith;
              front_state = ground arith;
              options = ground arith;
            }
      ]

  -- A call that returns has read the flag and changed nothing of the queue.
  pub is_queue_poisoned-Visited :
      (addr i : ℕ) (w : World c) (r : Bool × World c)
      → is_queue_poisoned addr i w ≡ value r
      → (r.0 ≡ (exclusive w).queue_poisoned) × Visited addr w r.1 (exclusive w)
  unfolding is_queue_poisoned drop_guard
  is_queue_poisoned-Visited addr i w r h =
      elim (Outcome-cases (assert_mutex_good w.cq.mutex_address addr)) [
        | inl e ↦ absurd (ground arith)
        | inr (a, e) ↦
            let good = assert_mutex_good-value w.cq.mutex_address addr a e in
            (
              ground arith,
              record {
                address = ground arith;
                holder = ground arith;
                contents = ground arith;
                frames = ground arith;
                front_state = ground arith;
                options = ground arith;
              },
            )
      ]
