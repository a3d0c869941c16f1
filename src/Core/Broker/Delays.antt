-- ===== src/Core/Broker/Delays.antt =====
-- The delay before a retry: `BackoffPolicy::delay` of broker/policy.rs.
use kafka_driver.Base.{ℕ, zero, suc, ◌+◌, ◌-◌, ◌*◌, ◌%◌, ◌^◌, ◌≤◌, ◌≡◌, min, arith, ap, u64_max}
use kafka_driver.Core.Broker.{
  BackoffPolicy, RetryOrdinal, JitterSample, delay, delay_cap, half_up, try_new, valid,
}

in_width : (cap jitter : ℕ) → jitter % (cap - half_up cap + 1) ≤ cap - half_up cap
in_width cap jitter = omega arith

power_positive : (n : ℕ) → 1 ≤ 2 ^ n
power_positive zero = omega arith
power_positive (suc n) = omega (arith, power_positive n)

scaled : (base n : ℕ) → base ≤ base * 2 ^ n
scaled base n = grind (arith, power_positive n)

-- Between a half of the cap, rounded up, and the cap.
delay-cap :
    (p : BackoffPolicy) (r : RetryOrdinal) (jitter : JitterSample)
    → (delay_cap p r ≤ 2 * delay p r jitter) × (delay p r jitter ≤ delay_cap p r)
unfolding delay
delay-cap p r jitter =
    let cap = delay_cap p r in
    let inner = in_width cap jitter in
    let half : half_up cap ≤ cap = omega arith in
    let double : cap ≤ 2 * half_up cap = omega arith in
    (omega (arith, double), omega (arith, inner, half))

-- A policy that was accepted delays every retry by at least one nanosecond and at most its maximum:
-- never less than half of its base, never more than the cap that the retry has reached, and never
-- less than a half of that cap.
pub delay_bounds :
    (base max : ℕ) (p : BackoffPolicy) (r : RetryOrdinal) (jitter : JitterSample)
    → try_new base max ≡ valid p
    → (1 ≤ delay p r jitter)
      × (delay p r jitter ≤ max)
      × (base ≤ 2 * delay p r jitter)
      × (delay p r jitter ≤ base * 2 ^ min (r - 1) 63)
      × (delay_cap p r ≤ 2 * delay p r jitter)
unfolding try_new
delay_bounds base max p r jitter accepted =
    let fields : (p.base_nanos ≡ base)
        × (p.max_nanos ≡ max)
        × (1 ≤ base)
        × (base ≤ max)
        × (base ≤ u64_max) =
      ground arith in
    let (is_base, is_max, positive, ordered, small) = fields in
    let (half, whole) = delay-cap p r jitter in
    let grown = scaled base (min (r - 1) 63) in
    let same : p.base_nanos * 2 ^ min (r - 1) 63 ≡ base * 2 ^ min (r - 1) 63 =
      ap (λ b. b * 2 ^ min (r - 1) 63) is_base in
    (omega arith, omega arith, omega arith, omega arith, half)
