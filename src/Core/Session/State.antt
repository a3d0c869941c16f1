-- ===== src/Core/Session/State.antt =====
-- The states, inputs and effects of a session.
use kafka_driver.Base.{ℕ, Option, List, []}
use kafka_driver.Core.Identity.{Moment}
use kafka_driver.Core.Capability.{ApiVersion, NegotiatedCapabilities}
use kafka_driver.Core.Authentication.{
  AuthenticationFailure, SaslMechanism, SaslProtocol, AuthenticationPolicy, AuthenticationRound,
  ExchangeOutcome,
}

pub data NegotiationFailure : Type 0 where
  broker malformed capacity elapsed : NegotiationFailure

pub data ProtocolFailure : Type 0 where
  malformed unexpected : ProtocolFailure

pub data CloseReason : Type 0 where
  drained requested : CloseReason
  negotiation_failed : NegotiationFailure → CloseReason
  authentication_failed : AuthenticationFailure → CloseReason
  protocol_failed : ProtocolFailure → CloseReason
  transport_closed : CloseReason

pub record SessionDeadline : Type 0 where
  pub now : Moment
  pub deadline : Moment

pub data AuthenticationStage : Type 0 where
  handshaking : (deadline : Moment) → AuthenticationStage
  exchanging : AuthenticationRound → (deadline : Moment) → AuthenticationStage

pub data StateData : Type 0 where
  awaiting_transport : StateData
  negotiating : (deadline : Moment) → StateData
  authenticating : NegotiatedCapabilities → SaslProtocol → AuthenticationStage → StateData
  ready : NegotiatedCapabilities → StateData
  draining : NegotiatedCapabilities → StateData
  closing : CloseReason → StateData
  closed : CloseReason → StateData

pub record SessionMachine : Type 0 where
  pub state : StateData
  pub max_capabilities : ℕ
  pub authentication : Option AuthenticationPolicy

pub data SessionInput : Type 0 where
  transport_opened : SessionDeadline → SessionInput
  api_versions_succeeded : NegotiatedCapabilities → SessionInput
  api_versions_succeeded_with_authentication :
      NegotiatedCapabilities → SessionDeadline → SessionInput
  api_versions_failed : NegotiationFailure → SessionInput
  authentication_handshake_succeeded : SessionInput
  authentication_handshake_failed : AuthenticationFailure → SessionInput
  authentication_exchange_completed : AuthenticationRound → ExchangeOutcome → SessionInput
  deadline_elapsed : (now : Moment) → SessionInput
  begin_drain : SessionInput
  all_drained : SessionInput
  protocol_fault : ProtocolFailure → SessionInput
  transport_gone : SessionInput

pub data SessionEffect : Type 0 where
  start_api_versions : (deadline : Moment) → SessionEffect
  start_authentication_handshake : SaslMechanism → ApiVersion → (deadline : Moment) → SessionEffect
  start_authentication_exchange :
      AuthenticationRound → ApiVersion → (deadline : Moment) → SessionEffect
  reschedule_deadline : (at : Moment) → SessionEffect
  cancel_deadline session_ready drains : SessionEffect
  close_session : CloseReason → SessionEffect

pub data Disposition : Type 0 where
  applied ignored ignored_stale fault : Disposition

pub record Transition : Type 0 where
  pub effects : List SessionEffect
  pub disposition : Disposition

abbrev pub applies : List SessionEffect → Transition
applies es = record { effects = es; disposition = applied }

abbrev pub ignores : Transition
ignores = record { effects = []; disposition = ignored }

abbrev pub stale : Transition
stale = record { effects = []; disposition = ignored_stale }

unfoldable pub new : (max_capabilities : ℕ) → Option AuthenticationPolicy → SessionMachine
new limit policy = record {
  state = awaiting_transport;
  max_capabilities = limit;
  authentication = policy;
}
