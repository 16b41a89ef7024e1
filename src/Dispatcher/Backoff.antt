-- ===== src/Dispatcher/Backoff.antt =====
-- src/dispatcher/worker.rs backoff_delay: its bounds and its growth.
use messgr.Base.{ℕ, zero, suc, ◌+◌, ◌/◌, ◌^◌, ◌≤◌, min, max, arith}
use native.Mathlib.Nat.{pow-le-pow_right}
use messgr.Dispatcher.Worker.{backoff_base, backoff_cap, capped_delay, backoff_delay}

doubled : (n : ℕ) → 1 ≤ 2 ^ n
doubled zero = omega arith
doubled (suc n) = let before = doubled n in ground arith

capped_delay-bounds : (n : ℕ) → (backoff_base ≤ capped_delay n) × (capped_delay n ≤ backoff_cap)
unfolding capped_delay
capped_delay-bounds zero = (omega arith, omega arith)
capped_delay-bounds (suc n) = let grown = doubled (min n 6) in ground arith

-- If the generator stays within the range it is asked for, a retry waits at least thirty seconds
-- and at most forty-five minutes, whatever the number of attempts.
pub backoff_delay-bounds :
    (random_range : ℕ → ℕ) (attempts : ℕ)
    → ((n : ℕ) → random_range n ≤ n)
    → (backoff_base ≤ backoff_delay random_range attempts)
      × (backoff_delay random_range attempts ≤ backoff_cap + backoff_cap / 2)
unfolding backoff_delay
backoff_delay-bounds random_range attempts ranged =
    let bounds = capped_delay-bounds attempts in
    let drawn = ranged (max (capped_delay attempts / 2) 1) in ground arith

-- A later attempt never waits less than an earlier one's delay before jitter.
pub capped_delay_mono : (m n : ℕ) → 1 ≤ m → m ≤ n → capped_delay m ≤ capped_delay n
unfolding capped_delay
capped_delay_mono zero n h k = ground arith
capped_delay_mono (suc m) zero h k = ground arith
capped_delay_mono (suc m) (suc n) h k =
    let grown = pow-le-pow_right {n = 2} (omega arith) {i = min m 6} {j = min n 6} (ground arith) in
    ground arith
