-- ===== src/Core/Authentication/State.antt =====
-- The states, inputs and effects of the SASL child.
use kafka_driver.Base.{ℕ, Option, List, [], checked_add}
use kafka_driver.Core.Identity.{EffectId, TimerId, TransportId, ConnectionEpoch, Moment}
use kafka_driver.Core.Capability.{ApiKey, ApiVersion}

-- A correlation is an `i32`; it is written as the number with the same 32 bits.
abbrev pub CorrelationId : Type 0
CorrelationId = ℕ

pub data AuthenticationFailure : Type 0 where
  unsupported_mechanism rejected malformed policy_limit_exceeded : AuthenticationFailure
  local_capacity invalid_server_proof too_many_rounds timeout protocol : AuthenticationFailure

pub data FailureDisposition : Type 0 where
  permanent retryable : FailureDisposition

unfoldable pub failure_disposition : AuthenticationFailure → FailureDisposition
failure_disposition timeout = retryable
failure_disposition local_capacity = retryable
failure_disposition _ = permanent

pub data SaslMechanism : Type 0 where
  plain scram_sha256 scram_sha512 : SaslMechanism

pub record AuthenticationLimits : Type 0 where
  pub max_exchange_rounds : ℕ

pub record SaslProtocol : Type 0 where
  pub mechanism : SaslMechanism
  pub handshake_version : ApiVersion
  pub authenticate_version : ApiVersion

pub record AuthenticationPolicy : Type 0 where
  pub policy_mechanism : SaslMechanism
  pub handshake_api_key : ApiKey
  pub authenticate_api_key : ApiKey
  pub policy_limits : AuthenticationLimits

-- A nonzero `u8`.
abbrev pub AuthenticationRound : Type 0
AuthenticationRound = ℕ

abbrev pub first_round : AuthenticationRound
first_round = 1

unfoldable pub next_round : AuthenticationRound → Option AuthenticationRound
next_round r = checked_add 255 r 1

pub data AuthenticationState : Type 0 where
  dormant : AuthenticationState
  handshaking : EffectId → (deadline_timer : TimerId) → (deadline : Moment) → AuthenticationState
  exchanging :
      EffectId
      → AuthenticationRound
      → (deadline_timer : TimerId) → (deadline : Moment) → AuthenticationState
  succeeded : AuthenticationState
  failed : AuthenticationFailure → AuthenticationState

pub record AuthenticationMachine : Type 0 where
  pub epoch : ConnectionEpoch
  pub transport_id : TransportId
  pub sasl : SaslProtocol
  pub limits : AuthenticationLimits
  pub state : AuthenticationState

pub record AuthenticationAttempt : Type 0 where
  pub effect_id : EffectId
  pub deadline_timer : TimerId
  pub now : Moment
  pub deadline : Moment

pub data ExchangeOutcome : Type 0 where
  continues : ExchangeOutcome
  completes : ExchangeOutcome
  fails : AuthenticationFailure → ExchangeOutcome

pub data AuthenticationInput : Type 0 where
  start : AuthenticationAttempt → AuthenticationInput
  handshake_accepted : ConnectionEpoch → TransportId → EffectId → AuthenticationInput
  handshake_failed :
      ConnectionEpoch → TransportId → EffectId → AuthenticationFailure → AuthenticationInput
  exchange_completed :
      ConnectionEpoch
      → TransportId
      → EffectId
      → AuthenticationRound
      → ExchangeOutcome
      → AuthenticationInput
  deadline_elapsed : ConnectionEpoch → TimerId → (now : Moment) → AuthenticationInput

pub data AuthenticationEffect : Type 0 where
  schedule_deadline : ConnectionEpoch → TimerId → (at : Moment) → AuthenticationEffect
  send_handshake :
      ConnectionEpoch
      → TransportId
      → EffectId
      → CorrelationId
      → SaslMechanism
      → ApiVersion
      → AuthenticationEffect
  send_exchange :
      ConnectionEpoch
      → TransportId
      → EffectId
      → AuthenticationRound
      → CorrelationId
      → ApiVersion
      → AuthenticationEffect
  cancel_deadline : TimerId → AuthenticationEffect
  reports_success : AuthenticationEffect
  reports_failure : AuthenticationFailure → AuthenticationEffect

pub data AuthenticationDisposition : Type 0 where
  applied ignored_stale : AuthenticationDisposition

pub record Transition : Type 0 where
  pub effects : List AuthenticationEffect
  pub disposition : AuthenticationDisposition

abbrev pub applies : List AuthenticationEffect → Transition
applies es = record { effects = es; disposition = applied }

abbrev pub stale : Transition
stale = record { effects = []; disposition = ignored_stale }
