-- ===== src/Core/Bootstrap/Retry/Rounds.antt =====
-- The delays of passes that fail one after the other: bootstrap/retry.rs.
use kafka_driver.Core.Identity.{Moment, add_duration}
use kafka_driver.Base.{
  List, [], ◌+◌, ◌<◌, ◌≤◌, u32_max, length, u64_max, ◌≡◌, suc, ◌∷◌, ◌++◌, arith, ap, ℕ, ◌⊎◌, All,
  refl,
}
use kafka_driver.Core.Broker.{
  BackoffPolicy, RetryOrdinal, JitterSample, delay, next_retry, try_new, valid,
}
use kafka_driver.Core.Broker.Delays.{delay_bounds}
use kafka_driver.Core.Bootstrap.Retry.{
  BootstrapRetryMachine, BootstrapRetryState, BootstrapRetryEffect, BootstrapRetryResult, ready,
  waiting, exhausted, elapsed, wait_until, restart, decided, deadline_overflow, new, apply, List,
  Moment, add_duration, BootstrapRetryInput,
}

-- The machine that a result leaves, and its effects.
abbrev pub left : BootstrapRetryResult → BootstrapRetryMachine × List BootstrapRetryEffect
left (decided m t) = (m, t.effects)
left (deadline_overflow m) = (m, [])

abbrev pub Round : Type 0
Round = Moment × JitterSample

-- The machine is ready, and the deadline of the failed pass is past the end of the clock.
abbrev pub Overflows : BackoffPolicy → BootstrapRetryState → BootstrapRetryInput → Type 0
Overflows p (ready r) (exhausted now jitter) =
    (u64_max < delay p r jitter) ⊎ (u64_max < now + delay p r jitter)
Overflows p _ _ = ⊥

module _ (p : BackoffPolicy) where
  abbrev pub resting : RetryOrdinal → BootstrapRetryMachine
  resting r = record { policy = p; state = ready r }

  -- Passes end one after the other; after each, time goes on to its deadline.
  abbrev pub run_rounds :
      BootstrapRetryMachine
      → RetryOrdinal
      → List Round
      → BootstrapRetryMachine × List BootstrapRetryEffect
  run_rounds m r [] = (m, [])
  run_rounds m r ((now, jitter) ∷ rounds) =
      let (waits, first) = left (apply m (exhausted now jitter)) in
      let (ready_again, second) = left (apply waits (elapsed (now + delay p r jitter))) in
      let (last, rest) = run_rounds ready_again (suc r) rounds in (last, first ++ second ++ rest)

  abbrev pub round_effects : RetryOrdinal → List Round → List BootstrapRetryEffect
  round_effects r [] = []
  round_effects r ((now, jitter) ∷ rounds) =
      wait_until (now + delay p r jitter) ∷ restart ∷ round_effects (suc r) rounds

  -- Each deadline fits the clock.
  abbrev pub Fits : RetryOrdinal → List Round → Type 0
  Fits r [] = Unit
  Fits r ((now, jitter) ∷ rounds) = (now + delay p r jitter ≤ u64_max) × Fits (suc r) rounds

  waits :
      (r : RetryOrdinal) (now : Moment) (jitter : JitterSample)
      → now + delay p r jitter ≤ u64_max
      → left (apply (resting r) (exhausted now jitter)) ≡ (
        record { policy = p; state = waiting r (now + delay p r jitter) },
        wait_until (now + delay p r jitter) ∷ [],
      )
  unfolding apply add_duration
  waits r now jitter fits = ground (arith, fits)

  restarts :
      (r : RetryOrdinal) (at : Moment)
      → r < u32_max
      → left (apply (record { policy = p; state = waiting r at }) (elapsed at))
        ≡ (resting (suc r), restart ∷ [])
  unfolding apply next_retry
  restarts r at small = ground (arith, small)

  rounds_from :
      (r : RetryOrdinal) (rounds : List Round)
      → r + length rounds ≤ u32_max
      → Fits r rounds
      → run_rounds (resting r) r rounds ≡ (resting (r + length rounds), round_effects r rounds)
  rounds_from r [] small fits = let e : r ≡ r + 0 = omega arith in ap (λ n. (resting n, [])) e
  rounds_from r ((now, jitter) ∷ rounds) small fits =
      let later = rounds_from (suc r) rounds (omega arith) fits.1 in
      let count : suc r + length rounds ≡ r + suc (length rounds) = omega arith in
      let next = restarts r (now + delay p r jitter) (omega arith) in
      rw (waits r now jitter fits.0, next, later, count) refl

  Fits-All :
      (base max : ℕ) (r : RetryOrdinal) (rounds : List Round)
      → try_new base max ≡ valid p
      → All (λ round. round.0 + max ≤ u64_max) rounds
      → Fits r rounds
  Fits-All base max r [] accepted within = tt
  Fits-All base max r ((now, jitter) ∷ rounds) accepted within =
      let (_, below_max, _, _, _) = delay_bounds base max p r jitter accepted in
      (omega (arith, below_max, within.0), Fits-All base max (suc r) rounds accepted within.1)

  -- If passes fail one after the other, with a policy that was accepted and a clock that has room for its
  -- longest delay, the n-th failure waits exactly for the delay of the n-th retry and then restarts; there is no overflow,
  -- and the machine stands ready for the next ordinal.
  pub rounds_grow :
      (base max : ℕ) (rounds : List Round)
      → try_new base max ≡ valid p
      → All (λ round. round.0 + max ≤ u64_max) rounds
      → 1 + length rounds ≤ u32_max
      → run_rounds (new p) 1 rounds ≡ (resting (1 + length rounds), round_effects 1 rounds)
  unfolding new
  rounds_grow base max rounds accepted within small =
      rounds_from 1 rounds small (Fits-All base max 1 rounds accepted within)

-- A failed pass is refused only by a ready machine whose deadline does not fit the clock; it is then left
-- as it was, so that a later input finds it ready for the same retry.
pub overflow_keeps :
    (m n : BootstrapRetryMachine) (i : BootstrapRetryInput)
    → apply m i ≡ deadline_overflow n
    → (n ≡ m) × Overflows m.policy m.state i
unfolding apply add_duration
overflow_keeps m n i h = ground (arith, h)
