-- ===== src/Queue/Address.antt =====
-- `assert_mutex_good` of src/queue.rs: which mutexes pass.
use contention_queue.Prelude.{ℕ, ◌≡◌, ◌≢◌, ◌⊎◌, arith}
use contention_queue.Poisoning.{value}
use contention_queue.Queue.{assert_mutex_good}

-- A call returns exactly if no address is stored or its own is, and its own is stored afterwards.
pub assert_mutex_good-value :
    (stored addr a : ℕ)
    → assert_mutex_good stored addr ≡ value a
    → (a ≡ addr) × ((stored ≡ 0) ⊎ (stored ≡ addr))
unfolding assert_mutex_good
assert_mutex_good-value stored addr a h = ground arith

pub assert_mutex_good-returns :
    (stored addr : ℕ) → (stored ≡ 0) ⊎ (stored ≡ addr) → assert_mutex_good stored addr ≡ value addr
unfolding assert_mutex_good
assert_mutex_good-returns stored addr h = ground arith

-- If two calls of `assert_mutex_good` both return, the first with a nonzero address, and the second
-- finds what the first one stored, then they were given the same address, and it stays stored.
assert_mutex_good-agree :
    (stored a b stored_a stored_b : ℕ)
    → a ≢ 0
    → assert_mutex_good stored a ≡ value stored_a
    → assert_mutex_good stored_a b ≡ value stored_b
    → (b ≡ a) × (stored_b ≡ stored_a)
unfolding assert_mutex_good
assert_mutex_good-agree stored a b stored_a stored_b h p q = ground arith
