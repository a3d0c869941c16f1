-- ===== src/Core/Connection/State.antt =====
-- The state, inputs and effects of one connection epoch: state_data.rs, state.rs, active.rs,
-- input.rs, effect.rs, failure.rs, limits.rs and trace.rs of
-- crates/kafka-driver-core/src/connection.
use kafka_driver.Base.{ℕ, Option, List, []}
use kafka_driver.Core.Identity.{
  CallId, EffectId, TimerId, TransportId, ConnectionEpoch, Moment, Delivery,
}
use kafka_driver.Core.Capability.{NegotiatedCapabilities}
use kafka_driver.Core.Authentication.{
  AuthenticationMachine, AuthenticationPolicy, AuthenticationFailure, AuthenticationInput,
  AuthenticationEffect, CorrelationId, AuthenticationAttempt,
}
use kafka_driver.Core.Session.{SessionMachine, NegotiationFailure}
use kafka_driver.Core.Connection.Pending.{PendingQueue}

pub data TransportFailure : Type 0 where
  refused reset security timed_out other : TransportFailure

pub data CloseReason : Type 0 where
  drained requested : CloseReason
  open_failed transport_lost : TransportFailure → CloseReason
  negotiation_failed : NegotiationFailure → CloseReason
  authentication_failed : AuthenticationFailure → CloseReason
  correlation_mismatch : (expected received : CorrelationId) → CloseReason
  unexpected_response malformed_response : CloseReason
  deadline_exceeded : CallId → CloseReason

pub data ResponseFault : Type 0 where
  unexpected malformed : ResponseFault

pub data CallFailure : Type 0 where
  not_ready is_draining is_closed : CallFailure
  capacity_reached : (limit : ℕ) → CallFailure
  correlation_space_exhausted out_of_time locally_rejected : CallFailure
  connection_closed : CloseReason → CallFailure
  mismatched : (expected received : CorrelationId) → CallFailure

pub data IdentityKind : Type 0 where
  call write_effect deadline_timer : IdentityKind

pub data MachineError : Type 0 where
  identity_in_use : IdentityKind → MachineError
  transition_sequence_exhausted : MachineError

pub record ConnectionLimits : Type 0 where
  pub in_flight : ℕ
  pub capabilities : ℕ
  pub trace_records : ℕ

pub data ActiveMode : Type 0 where
  ready draining : ActiveMode

pub record ActiveConnection : Type 0 where
  pub epoch : ConnectionEpoch
  pub transport_id : TransportId
  pub next_correlation : CorrelationId
  pub pending : PendingQueue
  pub negotiated : NegotiatedCapabilities

pub data StateData : Type 0 where
  dormant : ConnectionEpoch → StateData
  opening :
      ConnectionEpoch → EffectId → TransportId → (timer : TimerId) → (deadline : Moment) → StateData
  negotiating :
      ConnectionEpoch → TransportId → EffectId → (timer : TimerId) → (deadline : Moment) → StateData
  authenticating :
      ConnectionEpoch → TransportId → NegotiatedCapabilities → AuthenticationMachine → StateData
  active : ActiveMode → ActiveConnection → StateData
  closing : ConnectionEpoch → TransportId → CloseReason → StateData
  closed : ConnectionEpoch → CloseReason → StateData

abbrev pub state_epoch : StateData → ConnectionEpoch
state_epoch (dormant e) = e
state_epoch (opening e ef t dt d) = e
state_epoch (negotiating e t ef dt d) = e
state_epoch (authenticating e t c a) = e
state_epoch (active m c) = c.epoch
state_epoch (closing e t r) = e
state_epoch (closed e r) = e

pub data ConnectionPhase : Type 0 where
  dormant opening negotiating authenticating : ConnectionPhase
  ready draining closing closed : ConnectionPhase

abbrev pub phase : StateData → ConnectionPhase
phase (dormant e) = ConnectionPhase.dormant
phase (opening e ef t dt d) = ConnectionPhase.opening
phase (negotiating e t ef dt d) = ConnectionPhase.negotiating
phase (authenticating e t c a) = ConnectionPhase.authenticating
phase (active ready c) = ConnectionPhase.ready
phase (active draining c) = ConnectionPhase.draining
phase (closing e t r) = ConnectionPhase.closing
phase (closed e r) = ConnectionPhase.closed

pub record NegotiationAttempt : Type 0 where
  pub effect_id : EffectId
  pub attempt_timer : TimerId
  pub now : Moment
  pub deadline : Moment

pub data ConnectionInput : Type 0 where
  start : EffectId → TransportId → TimerId → (deadline : Moment) → ConnectionInput
  transport_opened : ConnectionEpoch → EffectId → TransportId → NegotiationAttempt → ConnectionInput
  transport_open_failed :
      ConnectionEpoch → EffectId → TransportId → TransportFailure → ConnectionInput
  api_versions_negotiated :
      ConnectionEpoch → TransportId → EffectId → NegotiatedCapabilities → ConnectionInput
  api_versions_negotiated_with_authentication :
      ConnectionEpoch
      → TransportId
      → EffectId
      → NegotiatedCapabilities
      → AuthenticationAttempt
      → ConnectionInput
  api_versions_failed :
      ConnectionEpoch → TransportId → EffectId → NegotiationFailure → ConnectionInput
  authentication : AuthenticationInput → ConnectionInput
  submit : CallId → EffectId → TimerId → (now deadline : Moment) → ConnectionInput
  write_submitted : ConnectionEpoch → TransportId → EffectId → ConnectionInput
  abort_unsent_call : ConnectionEpoch → TransportId → CallId → EffectId → ConnectionInput
  write_failed : ConnectionEpoch → TransportId → EffectId → TransportFailure → ConnectionInput
  response_received : ConnectionEpoch → TransportId → CorrelationId → ConnectionInput
  response_rejected : ConnectionEpoch → TransportId → ResponseFault → ConnectionInput
  deadline_elapsed : ConnectionEpoch → TimerId → (now : Moment) → ConnectionInput
  begin_drain : ConnectionInput
  transport_closed : ConnectionEpoch → TransportId → TransportFailure → ConnectionInput

pub data InputKind : Type 0 where
  start transport_opened transport_open_failed api_versions_negotiated : InputKind
  api_versions_negotiated_with_authentication api_versions_failed authentication : InputKind
  submit write_submitted abort_unsent_call write_failed response_received : InputKind
  response_rejected deadline_elapsed begin_drain transport_closed : InputKind

unfoldable pub kind : ConnectionInput → InputKind
kind (start e t d at) = InputKind.start
kind (transport_opened e f t n) = InputKind.transport_opened
kind (transport_open_failed e f t w) = InputKind.transport_open_failed
kind (api_versions_negotiated e t f c) = InputKind.api_versions_negotiated
kind (api_versions_negotiated_with_authentication e t f c a) =
    InputKind.api_versions_negotiated_with_authentication
kind (api_versions_failed e t f w) = InputKind.api_versions_failed
kind (authentication i) = InputKind.authentication
kind (submit c w d n at) = InputKind.submit
kind (write_submitted e t f) = InputKind.write_submitted
kind (abort_unsent_call e t c f) = InputKind.abort_unsent_call
kind (write_failed e t f w) = InputKind.write_failed
kind (response_received e t c) = InputKind.response_received
kind (response_rejected e t f) = InputKind.response_rejected
kind (deadline_elapsed e t n) = InputKind.deadline_elapsed
kind begin_drain = InputKind.begin_drain
kind (transport_closed e t w) = InputKind.transport_closed

pub data ConnectionEffect : Type 0 where
  schedule_open_deadline : ConnectionEpoch → TimerId → (at : Moment) → ConnectionEffect
  open_transport : ConnectionEpoch → EffectId → TransportId → ConnectionEffect
  schedule_negotiation_deadline : ConnectionEpoch → TimerId → (at : Moment) → ConnectionEffect
  negotiate_api_versions :
      ConnectionEpoch → TransportId → EffectId → CorrelationId → ConnectionEffect
  authenticates : AuthenticationEffect → ConnectionEffect
  schedule_deadline : ConnectionEpoch → CallId → TimerId → (at : Moment) → ConnectionEffect
  write_request :
      ConnectionEpoch → TransportId → CallId → CorrelationId → EffectId → ConnectionEffect
  cancel_deadline : TimerId → ConnectionEffect
  complete_response : CallId → CorrelationId → ConnectionEffect
  fail_call : CallId → CallFailure → Delivery → ConnectionEffect
  close_transport : ConnectionEpoch → TransportId → CloseReason → ConnectionEffect

pub data Disposition : Type 0 where
  applied rejected ignored ignored_stale fault : Disposition

pub record Decision : Type 0 where
  pub effects : List ConnectionEffect
  pub disposition : Disposition

abbrev pub applies : List ConnectionEffect → Decision
applies es = record { effects = es; disposition = applied }

abbrev pub rejects : List ConnectionEffect → Decision
rejects es = record { effects = es; disposition = rejected }

abbrev pub faults : List ConnectionEffect → Decision
faults es = record { effects = es; disposition = fault }

abbrev pub ignores : Decision
ignores = record { effects = []; disposition = ignored }

abbrev pub stale : Decision
stale = record { effects = []; disposition = ignored_stale }

pub record TransitionRecord : Type 0 where
  pub sequence : ℕ
  pub record_epoch : ConnectionEpoch
  pub from_phase : ConnectionPhase
  pub input_kind : InputKind
  pub to_phase : ConnectionPhase
  pub outcome : Disposition
  pub effect_count : ℕ

pub record TransitionTrace : Type 0 where
  pub capacity : ℕ
  pub records : List TransitionRecord

pub record ConnectionMachine : Type 0 where
  pub state : StateData
  pub limits : ConnectionLimits
  pub policy : Option AuthenticationPolicy
  pub session : SessionMachine
  pub trace : TransitionTrace
  pub next_sequence : Option ℕ
