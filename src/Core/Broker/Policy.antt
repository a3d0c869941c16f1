-- ===== src/Core/Broker/Policy.antt =====
-- Retry ordinals and the jittered exponential delay: policy.rs of
-- crates/kafka-driver-core/src/broker. Durations and clocks are in nanoseconds.
use kafka_driver.Base.{
  ℕ, ◌+◌, ◌-◌, ◌*◌, ◌/◌, ◌%◌, ◌^◌, min, Option, none, some, u32_max, u64_max, checked_add, ltb,
  ◌==◌, if◌then◌else◌,
}

abbrev pub JitterSample : Type 0
JitterSample = ℕ

-- A `u32` that is not zero where it comes from `from_raw` or `next`.
abbrev pub RetryOrdinal : Type 0
RetryOrdinal = ℕ

abbrev pub first_retry : RetryOrdinal
first_retry = 1

unfoldable pub next_retry : RetryOrdinal → Option RetryOrdinal
next_retry r = checked_add u32_max r 1

-- `last_retry.map_or_else(first, next)`.
unfoldable pub retry_after : Option RetryOrdinal → Option RetryOrdinal
unfolding next_retry
retry_after none = some first_retry
retry_after (some r) = next_retry r

pub record BackoffPolicy : Type 0 where
  pub base_nanos : ℕ
  pub max_nanos : ℕ

pub data BackoffPolicyError : Type 0 where
  zero_base max_below_base duration_too_large : BackoffPolicyError

pub data PolicyResult : Type 0 where
  valid : BackoffPolicy → PolicyResult
  invalid : BackoffPolicyError → PolicyResult

unfoldable pub try_new : (base max : ℕ) → PolicyResult
try_new base max =
    if ltb u64_max base
    then invalid duration_too_large
    else if ltb u64_max max
    then invalid duration_too_large
    else if base == 0
    then invalid zero_base
    else if ltb max base
    then invalid max_below_base
    else valid (record { base_nanos = base; max_nanos = max })

-- The largest delay of a retry: `1 << exponent` is exact, since the exponent is at most 63, and the
-- product saturates.
abbrev pub delay_cap : BackoffPolicy → RetryOrdinal → ℕ
delay_cap p r = min (min (p.base_nanos * 2 ^ min (r - 1) 63) u64_max) p.max_nanos

-- `div_ceil(2)`.
abbrev pub half_up : ℕ → ℕ
half_up n = n / 2 + n % 2

unfoldable pub delay : BackoffPolicy → RetryOrdinal → JitterSample → ℕ
delay p r jitter =
    let cap = delay_cap p r in let floor = half_up cap in floor + jitter % (cap - floor + 1)
