-- ===== src/Core/Broker.antt =====
-- The owner of one broker's connection epochs, one at a time: crates/kafka-driver-core/src/broker.
mod Policy
mod State
pub mod Epochs
pub mod Delays
unfoldable pub use Policy.*
unfoldable pub use State.*
use kafka_driver.Base.{
  ℕ, Bool, true, false, ◌||◌, Option, none, some, List, [], ◌∷◌, ltb, leb, ◌==◌, ◌!=◌,
  if◌then◌else◌, u64_max, checked_add,
}
use kafka_driver.Core.Identity.{ConnectionEpoch, TimerId, Moment, add_duration}
use kafka_driver.Core.Resolution.{DnsFailure, no_usable_address}
use kafka_driver.Core.Authentication.{AuthenticationFailure}

unfoldable pub new : ConnectionEpoch → BackoffPolicy → BrokerMachine
new initial_epoch policy = record { state = dormant initial_epoch; policy = policy }

close : BrokerMachine → BrokerCloseReason → BrokerMachine × BrokerTransition
close m reason = (record m { state = closed reason }, applies [])

begin : BrokerMachine → BrokerMachine × BrokerTransition
begin m = elim m.state [
  | dormant epoch ↦
      (record m { state = connecting epoch none }, applies (open_connection epoch ∷ []))
  | _ ↦ (m, ignores)
]

connection_is_ready : BrokerMachine → ConnectionEpoch → BrokerMachine × BrokerTransition
connection_is_ready m epoch = elim m.state [
  | connecting expected retry ↦
      if epoch != expected then (m, stale) else (record m { state = available epoch }, applies [])
  | _ ↦ (m, stale)
]

reject_connection :
    BrokerMachine → ConnectionEpoch → AuthenticationFailure → BrokerMachine × BrokerTransition
unfolding close
reject_connection m epoch why = elim m.state [
  | connecting expected retry ↦
      if epoch != expected then (m, stale) else close m (authentication_failed why)
  | _ ↦ (m, stale)
]

elapse_reconnect :
    BrokerMachine → ConnectionEpoch → TimerId → Moment → BrokerMachine × BrokerTransition
elapse_reconnect m failed timer now = elim m.state [
  | backoff expected next retry expected_timer deadline ↦
      if failed != expected || timer != expected_timer
      then (m, stale)
      else if ltb now deadline
      then (m, applies (schedule_reconnect failed timer deadline ∷ []))
      else (record m { state = connecting next (some retry) }, applies (open_connection next ∷ []))
  | _ ↦ (m, stale)
]

drain : BrokerMachine → BrokerMachine × BrokerTransition
unfolding close
drain m = elim m.state [
  | dormant epoch ↦ close m requested
  | connecting epoch retry ↦
      (record m { state = draining epoch }, applies (drain_connection epoch ∷ []))
  | available epoch ↦ (record m { state = draining epoch }, applies (drain_connection epoch ∷ []))
  | backoff failed next retry timer deadline ↦
      (record m { state = closed requested }, applies (cancel_reconnect timer ∷ []))
  | refreshing failed next retry timer deadline (AddressRefreshState.backoff r refresh_timer d) ↦ (
    record m { state = closed requested },
    applies (cancel_endpoint_refresh_retry refresh_timer ∷ []),
  )
  | refreshing failed next retry timer deadline _ ↦
      (record m { state = closed requested }, applies [])
  | draining epoch ↦ (m, ignores)
  | closed reason ↦ (m, ignores)
]

finish_drain : BrokerMachine → ConnectionEpoch → BrokerMachine × BrokerTransition
unfolding close
finish_drain m epoch = elim m.state [
  | draining expected ↦ if epoch != expected then (m, stale) else close m requested
  | _ ↦ (m, stale)
]

-- `recovery_after`: the generation after a failed one, or the transition that ends the attempt.
pub record RecoveryGeneration : Type 0 where
  pub next_epoch : ConnectionEpoch
  pub retry : RetryOrdinal
  pub timer_id : TimerId
  pub deadline : Moment

pub data Recovery : Type 0 where
  recovers : RecoveryGeneration → Recovery
  gives_up : BrokerCloseReason → Recovery
  is_stale : Recovery

recover_at : TimerId → ConnectionEpoch → RetryOrdinal → Option Moment → Recovery
recover_at timer next retry none = gives_up clock_overflow
recover_at timer next retry (some deadline) =
    recovers (record { next_epoch = next; retry = retry; timer_id = timer; deadline = deadline })

recover_with :
    BackoffPolicy → RetrySchedule → Option RetryOrdinal → Option ConnectionEpoch → Recovery
unfolding recover_at delay add_duration
recover_with p s none next = gives_up retry_exhausted
recover_with p s (some retry) none = gives_up epoch_exhausted
recover_with p s (some retry) (some next) =
    recover_at s.timer_id next retry (add_duration s.now (delay p retry s.jitter))

unfoldable pub recovery_after : BrokerMachine → ConnectionEpoch → RetrySchedule → Recovery
unfolding recover_with retry_after
recovery_after m epoch s = elim m.state [
  | connecting expected retry ↦
      if epoch == expected
      then recover_with m.policy s (retry_after retry) (checked_add u64_max epoch 1)
      else is_stale
  | available expected ↦
      if epoch == expected
      then recover_with m.policy s (some first_retry) (checked_add u64_max epoch 1)
      else is_stale
  | _ ↦ is_stale
]

abbrev fail_with : BrokerMachine → ConnectionEpoch → Recovery → BrokerMachine × BrokerTransition
fail_with m epoch (recovers r) = (
  record m { state = backoff epoch r.next_epoch r.retry r.timer_id r.deadline },
  applies (schedule_reconnect epoch r.timer_id r.deadline ∷ []),
)
fail_with m epoch (gives_up reason) = close m reason
fail_with m epoch is_stale = (m, stale)

unfoldable pub fail_connection :
    BrokerMachine → ConnectionEpoch → RetrySchedule → BrokerMachine × BrokerTransition
unfolding close recovery_after
fail_connection m epoch s = fail_with m epoch (recovery_after m epoch s)

abbrev exhaust_with : BrokerMachine → ConnectionEpoch → Recovery → BrokerMachine × BrokerTransition
exhaust_with m epoch (recovers r) = (
  record m { state = refreshing epoch r.next_epoch r.retry r.timer_id r.deadline (pending none) },
  applies [],
)
exhaust_with m epoch (gives_up reason) = close m reason
exhaust_with m epoch is_stale = (m, stale)

exhaust_endpoint :
    BrokerMachine → ConnectionEpoch → RetrySchedule → BrokerMachine × BrokerTransition
unfolding close recovery_after
exhaust_endpoint m epoch s = exhaust_with m epoch (recovery_after m epoch s)

start_refresh : BrokerMachine → ConnectionEpoch → BrokerMachine × BrokerTransition
start_refresh m failed = elim m.state [
  | refreshing expected next retry timer deadline (pending last) ↦
      if failed != expected then (m, stale) else (
        record m { state = refreshing failed next retry timer deadline (resolving last) },
        applies [],
      )
  | _ ↦ (m, stale)
]

defer_refresh : BrokerMachine → ConnectionEpoch → BrokerMachine × BrokerTransition
defer_refresh m failed = elim m.state [
  | refreshing expected next retry timer deadline (resolving last) ↦
      if failed != expected then (m, stale) else (
        record m { state = refreshing failed next retry timer deadline (pending last) },
        applies [],
      )
  | _ ↦ (m, stale)
]

abbrev is_unusable : DnsFailure → Bool
is_unusable no_usable_address = true
is_unusable _ = false

-- The retry is scheduled, if its ordinal and its deadline can be represented. `held` is the state
-- of the suspended reconnect around the new state of the refresh.
retry_refresh_at :
    BrokerMachine
    → (AddressRefreshState → BrokerState)
    → ConnectionEpoch
    → TimerId
    → RetryOrdinal
    → Option Moment
    → BrokerMachine × BrokerTransition
unfolding close
retry_refresh_at m held failed timer retry none = close m clock_overflow
retry_refresh_at m held failed timer retry (some deadline) = (
  record m { state = held (AddressRefreshState.backoff retry timer deadline) },
  applies (schedule_endpoint_refresh_retry failed timer deadline ∷ []),
)

retry_refresh :
    BrokerMachine
    → (AddressRefreshState → BrokerState)
    → ConnectionEpoch
    → Option RetrySchedule
    → Option RetryOrdinal
    → BrokerMachine × BrokerTransition
unfolding close retry_refresh_at delay add_duration
retry_refresh m held failed none retry = close m retry_resources_unavailable
retry_refresh m held failed (some s) none = close m retry_exhausted
retry_refresh m held failed (some s) (some retry) =
    retry_refresh_at m held failed s.timer_id retry
      (add_duration s.now (delay m.policy retry s.jitter))

fail_refresh :
    BrokerMachine
    → ConnectionEpoch
    → DnsFailure
    → Option RetrySchedule
    → BrokerMachine × BrokerTransition
unfolding close retry_refresh retry_after
fail_refresh m failed why schedule = elim m.state [
  | refreshing expected next retry timer deadline (resolving last) ↦
      if failed != expected
      then (m, stale)
      else if is_unusable why
      then close m (endpoint_resolution_failed why)
      else retry_refresh m (refreshing failed next retry timer deadline) failed schedule
          (retry_after last)
  | _ ↦ (m, stale)
]

elapse_refresh_retry :
    BrokerMachine → ConnectionEpoch → TimerId → Moment → BrokerMachine × BrokerTransition
elapse_refresh_retry m failed timer now = elim m.state [
  | refreshing expected next retry reconnect_timer reconnect_deadline
        (AddressRefreshState.backoff r expected_timer deadline) ↦
      if failed != expected || timer != expected_timer
      then (m, stale)
      else if ltb now deadline
      then (m, applies (schedule_endpoint_refresh_retry failed timer deadline ∷ []))
      else (
        record m {
          state =
              refreshing failed next retry reconnect_timer reconnect_deadline (pending (some r));
        },
        applies [],
      )
  | _ ↦ (m, stale)
]

finish_refresh : BrokerMachine → ConnectionEpoch → Moment → BrokerMachine × BrokerTransition
finish_refresh m failed now = elim m.state [
  | refreshing expected next retry timer deadline (resolving last) ↦
      if failed != expected
      then (m, stale)
      else if ltb now deadline
      then (
        record m { state = backoff failed next retry timer deadline },
        applies (schedule_reconnect failed timer deadline ∷ []),
      )
      else (record m { state = connecting next (some retry) }, applies (open_connection next ∷ []))
  | _ ↦ (m, stale)
]

unfoldable pub apply : BrokerMachine → BrokerInput → BrokerMachine × BrokerTransition
unfolding begin connection_is_ready reject_connection elapse_reconnect drain finish_drain
    fail_connection exhaust_endpoint start_refresh defer_refresh fail_refresh elapse_refresh_retry
    finish_refresh
apply m start = begin m
apply m (connection_ready epoch) = connection_is_ready m epoch
apply m (connection_failed epoch s) = fail_connection m epoch s
apply m (endpoint_exhausted epoch s) = exhaust_endpoint m epoch s
apply m (endpoint_refresh_started failed) = start_refresh m failed
apply m (endpoint_refresh_deferred failed) = defer_refresh m failed
apply m (endpoint_refresh_failed failed why retry) = fail_refresh m failed why retry
apply m (endpoint_refresh_retry_elapsed failed timer now) = elapse_refresh_retry m failed timer now
apply m (endpoint_refreshed failed now) = finish_refresh m failed now
apply m (connection_rejected epoch why) = reject_connection m epoch why
apply m (connection_drained epoch) = finish_drain m epoch
apply m (reconnect_elapsed failed timer now) = elapse_reconnect m failed timer now
apply m begin_drain = drain m
