-- ===== src/Core/Bootstrap/Retry.antt =====
-- The wait between two complete passes: retry.rs, retry_state.rs, retry_input.rs, retry_effect.rs
-- and retry_transition.rs of crates/kafka-driver-core/src/bootstrap.
pub mod Rounds
use kafka_driver.Base.{ℕ, Option, none, some, List, [], ◌∷◌, ltb, if◌then◌else◌}
use kafka_driver.Core.Identity.{Moment, add_duration}
use kafka_driver.Core.Broker.{BackoffPolicy, RetryOrdinal, JitterSample, delay, next_retry}

pub data BootstrapRetryState : Type 0 where
  ready : RetryOrdinal → BootstrapRetryState
  waiting : RetryOrdinal → (deadline : Moment) → BootstrapRetryState

pub data BootstrapRetryInput : Type 0 where
  exhausted : (now : Moment) → JitterSample → BootstrapRetryInput
  elapsed : (now : Moment) → BootstrapRetryInput
  succeeded : BootstrapRetryInput

pub data BootstrapRetryEffect : Type 0 where
  wait_until : Moment → BootstrapRetryEffect
  restart : BootstrapRetryEffect

pub data BootstrapRetryDisposition : Type 0 where
  applied ignored : BootstrapRetryDisposition

pub record BootstrapRetryTransition : Type 0 where
  pub effects : List BootstrapRetryEffect
  pub disposition : BootstrapRetryDisposition

pub record BootstrapRetryMachine : Type 0 where
  pub policy : BackoffPolicy
  pub state : BootstrapRetryState

-- `Result<BootstrapRetryTransition, BootstrapRetryError>`, with the machine that an input leaves.
pub data BootstrapRetryResult : Type 0 where
  decided : BootstrapRetryMachine → BootstrapRetryTransition → BootstrapRetryResult
  deadline_overflow : BootstrapRetryMachine → BootstrapRetryResult

abbrev applies : BootstrapRetryEffect → BootstrapRetryTransition
applies effect = record { effects = effect ∷ []; disposition = applied }

abbrev ignores : BootstrapRetryTransition
ignores = record { effects = []; disposition = ignored }

abbrev pub first_retry : RetryOrdinal
first_retry = 1

unfoldable pub new : BackoffPolicy → BootstrapRetryMachine
new policy = record { policy = policy; state = ready first_retry }

unfoldable pub deadline : BootstrapRetryMachine → Option Moment
deadline m = elim m.state [ ready _ ↦ none | waiting _ at ↦ some at ]

wait : BootstrapRetryMachine → Moment → JitterSample → BootstrapRetryResult
wait m now jitter = elim m.state [
  | ready retry ↦ elim (add_duration now (delay m.policy retry jitter)) [
    | none ↦ deadline_overflow m
    | some at ↦ decided (record m { state = waiting retry at }) (applies (wait_until at))
  ]
  | waiting _ _ ↦ decided m ignores
]

-- `retry.next().unwrap_or(retry)`.
following : RetryOrdinal → Option RetryOrdinal → RetryOrdinal
following retry none = retry
following retry (some next) = next

elapse : BootstrapRetryMachine → Moment → BootstrapRetryMachine × BootstrapRetryTransition
unfolding following
elapse m now = elim m.state [
  | ready _ ↦ (m, ignores)
  | waiting retry at ↦
      if ltb now at
      then (m, applies (wait_until at))
      else (record m { state = ready (following retry (next_retry retry)) }, applies restart)
]

unfoldable pub apply : BootstrapRetryMachine → BootstrapRetryInput → BootstrapRetryResult
unfolding wait elapse
apply m (exhausted now jitter) = wait m now jitter
apply m (elapsed now) = let (next, t) = elapse m now in decided next t
apply m succeeded =
    decided (record m { state = ready first_retry })
      (record { effects = []; disposition = applied })
