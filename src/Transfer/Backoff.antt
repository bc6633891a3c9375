-- ===== src/Transfer/Backoff.antt =====
-- The wait before a retry in `downloadPartWithRetry`: nanoseconds as a 64-bit pattern, whose upper
-- half stands for the negative durations.
use native.Mathlib.Nat.{pow-le-pow_right}
use apack.Base.{ℕ, ◌+◌, ◌-◌, ◌*◌, ◌%◌, ◌^◌, ◌≤◌, ◌<◌, ◌≡◌, arith, ltb, if◌then◌else◌, min}

abbrev pub word : ℕ
word = 2 ^ 64

abbrev pub max_wait : ℕ
max_wait = 30 * 1000000000

-- `backoff + jitter`, the jitter in milliseconds, with the products and the sum of int64
unfoldable pub wait_pattern : ℕ → ℕ → ℕ
wait_pattern attempt jitter = (2 ^ (attempt - 1) * 1000000000 + jitter * 1000000) % word

-- `sleepTime > 30*time.Second` compares signed numbers, so a negative one is left as it is.
unfoldable pub sleep_time : ℕ → ℕ → ℕ
unfolding wait_pattern
sleep_time attempt jitter =
    let t = wait_pattern attempt jitter in
    if ltb t (2 ^ 63) then (if ltb max_wait t then max_wait else t) else t

-- Up to the 34th retry the wait is the doubled backoff with its jitter, cut at thirty seconds:
-- the int64 product does not overflow.
pub sleep_time-eq-min :
    (attempt jitter : ℕ)
    → attempt ≤ 34
    → jitter < 1000
    → sleep_time attempt jitter ≡ min max_wait (2 ^ (attempt - 1) * 1000000000 + jitter * 1000000)
unfolding sleep_time wait_pattern
sleep_time-eq-min attempt jitter k j =
    let small : 2 ^ (attempt - 1) ≤ 2 ^ 33 =
      pow-le-pow_right {n = 2} (omega arith) {i = attempt - 1} {j = 33} (omega arith) in
    ground (arith, small)
