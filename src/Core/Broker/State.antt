-- ===== src/Core/Broker/State.antt =====
-- The states, inputs and effects of a broker: state.rs, input.rs, effect.rs and transition.rs of
-- crates/kafka-driver-core/src/broker.
use kafka_driver.Base.{Option, List, []}
use kafka_driver.Core.Identity.{ConnectionEpoch, TimerId, Moment}
use kafka_driver.Core.Authentication.{AuthenticationFailure}
use kafka_driver.Core.Resolution.{DnsFailure}
use kafka_driver.Core.Broker.Policy.{RetryOrdinal, BackoffPolicy, JitterSample}

pub data BrokerCloseReason : Type 0 where
  requested epoch_exhausted retry_exhausted retry_resources_unavailable clock_overflow :
      BrokerCloseReason
  authentication_failed : AuthenticationFailure → BrokerCloseReason
  endpoint_resolution_failed : DnsFailure → BrokerCloseReason

pub data AddressRefreshState : Type 0 where
  pending resolving : (last_retry : Option RetryOrdinal) → AddressRefreshState
  backoff : RetryOrdinal → TimerId → (deadline : Moment) → AddressRefreshState

pub data BrokerState : Type 0 where
  dormant : (initial_epoch : ConnectionEpoch) → BrokerState
  connecting : ConnectionEpoch → Option RetryOrdinal → BrokerState
  available : ConnectionEpoch → BrokerState
  backoff :
      (failed_epoch next_epoch : ConnectionEpoch)
      → RetryOrdinal
      → TimerId
      → (deadline : Moment) → BrokerState
  refreshing :
      (failed_epoch next_epoch : ConnectionEpoch)
      → RetryOrdinal
      → TimerId
      → (deadline : Moment) → AddressRefreshState
      → BrokerState
  draining : ConnectionEpoch → BrokerState
  closed : BrokerCloseReason → BrokerState

-- `ReconnectSchedule` and `EndpointRefreshSchedule` have the same fields.
pub record RetrySchedule : Type 0 where
  pub timer_id : TimerId
  pub now : Moment
  pub jitter : JitterSample

pub data BrokerInput : Type 0 where
  start : BrokerInput
  connection_ready : ConnectionEpoch → BrokerInput
  connection_failed : ConnectionEpoch → RetrySchedule → BrokerInput
  endpoint_exhausted : ConnectionEpoch → RetrySchedule → BrokerInput
  endpoint_refresh_started : (failed_epoch : ConnectionEpoch) → BrokerInput
  endpoint_refresh_deferred : (failed_epoch : ConnectionEpoch) → BrokerInput
  endpoint_refresh_failed :
      (failed_epoch : ConnectionEpoch) → DnsFailure → Option RetrySchedule → BrokerInput
  endpoint_refresh_retry_elapsed :
      (failed_epoch : ConnectionEpoch) → TimerId → (now : Moment) → BrokerInput
  endpoint_refreshed : (failed_epoch : ConnectionEpoch) → (now : Moment) → BrokerInput
  connection_rejected : ConnectionEpoch → AuthenticationFailure → BrokerInput
  connection_drained : ConnectionEpoch → BrokerInput
  reconnect_elapsed : (failed_epoch : ConnectionEpoch) → TimerId → (now : Moment) → BrokerInput
  begin_drain : BrokerInput

pub data BrokerEffect : Type 0 where
  open_connection : ConnectionEpoch → BrokerEffect
  schedule_reconnect : (failed_epoch : ConnectionEpoch) → TimerId → (at : Moment) → BrokerEffect
  schedule_endpoint_refresh_retry :
      (failed_epoch : ConnectionEpoch) → TimerId → (at : Moment) → BrokerEffect
  cancel_reconnect cancel_endpoint_refresh_retry : TimerId → BrokerEffect
  drain_connection : ConnectionEpoch → BrokerEffect

pub data BrokerDisposition : Type 0 where
  applied ignored ignored_stale : BrokerDisposition

pub record BrokerTransition : Type 0 where
  pub effects : List BrokerEffect
  pub disposition : BrokerDisposition

abbrev pub applies : List BrokerEffect → BrokerTransition
applies es = record { effects = es; disposition = applied }

abbrev pub ignores : BrokerTransition
ignores = record { effects = []; disposition = ignored }

abbrev pub stale : BrokerTransition
stale = record { effects = []; disposition = ignored_stale }

pub record BrokerMachine : Type 0 where
  pub state : BrokerState
  pub policy : BackoffPolicy
