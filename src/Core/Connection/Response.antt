-- ===== src/Core/Connection/Response.antt =====
-- Responses and deadlines: response.rs of crates/kafka-driver-core/src/connection.
use kafka_driver.Base.{◌||◌, Option, none, some, List, [], ◌∷◌, ltb, ◌!=◌, if◌then◌else◌}
use kafka_driver.Core.Identity.{TimerId, TransportId, ConnectionEpoch, Moment}
use kafka_driver.Core.Authentication
use kafka_driver.Core.Authentication.{AuthenticationMachine, CorrelationId}
use kafka_driver.Core.Session
use kafka_driver.Core.Session.{SessionMachine, SessionInput}
use kafka_driver.Core.Connection.Pending.{PendingCall, by_timer, awaits_write}
use kafka_driver.Core.Connection.Opening.{is_stale}
use kafka_driver.Core.Connection.Authenticating.{authentication_input}
use kafka_driver.Core.Connection.State.{
  TransportFailure, CloseReason, open_failed, negotiation_failed, correlation_mismatch,
  unexpected_response, malformed_response, deadline_exceeded, ResponseFault, CallFailure,
  mismatched, ActiveMode, ActiveConnection, opening, negotiating, authenticating, active, closing,
  cancel_deadline, complete_response, close_transport, schedule_deadline, Decision, applies, stale,
  faults, ConnectionMachine, schedule_open_deadline, schedule_negotiation_deadline,
}
use kafka_driver.Core.Connection.Close.{
  Specific, begin_active_close, apply_session, close_if_drained, decide,
}

abbrev rejection : ResponseFault → CloseReason × Session.ProtocolFailure
rejection ResponseFault.unexpected = (unexpected_response, Session.ProtocolFailure.unexpected)
rejection ResponseFault.malformed = (malformed_response, Session.ProtocolFailure.malformed)

-- `fail_session_protocol`, then the close that is reported as a fault.
close_faulty :
    ConnectionMachine
    → Session.ProtocolFailure
    → CloseReason
    → Specific
    → ConnectionMachine × Decision
unfolding begin_active_close
close_faulty m why reason specific =
    decide faults
      (begin_active_close (apply_session m (Session.protocol_fault why)) reason specific)

unfoldable pub response_rejected :
    ConnectionMachine → ConnectionEpoch → TransportId → ResponseFault → ConnectionMachine × Decision
unfolding close_faulty
response_rejected m epoch transport why = elim m.state [
  | active mode c ↦
      if epoch != c.epoch || transport != c.transport_id
      then (m, stale)
      else close_faulty m (rejection why).1 (rejection why).0 none
  | _ ↦ (m, stale)
]

-- A response against the calls that wait, the front first.
unfoldable pub respond :
    ConnectionMachine
    → ActiveMode
    → ActiveConnection
    → CorrelationId
    → List PendingCall
    → ConnectionMachine × Decision
unfolding close_faulty close_if_drained
respond m mode c received [] =
    close_faulty m Session.ProtocolFailure.unexpected unexpected_response none
respond m mode c received (front ∷ rest) =
    if awaits_write front
    then close_faulty m Session.ProtocolFailure.unexpected unexpected_response none
    else if front.correlation_id != received
    then close_faulty m Session.ProtocolFailure.unexpected
        (correlation_mismatch front.correlation_id received)
        (some (front.call_id, mismatched front.correlation_id received))
    else close_if_drained m mode (record c { pending = record (c.pending) { calls = rest } })
        (cancel_deadline front.deadline_timer
          ∷ complete_response front.call_id front.correlation_id
          ∷ [])

unfoldable pub response_received :
    ConnectionMachine → ConnectionEpoch → TransportId → CorrelationId → ConnectionMachine × Decision
unfolding respond
response_received m epoch transport received = elim m.state [
  | active mode c ↦
      if epoch != c.epoch || transport != c.transport_id
      then (m, stale)
      else respond m mode c received c.pending.calls
  | _ ↦ (m, stale)
]

elapse_call :
    ConnectionMachine
    → ActiveConnection
    → TimerId
    → Moment
    → Option PendingCall
    → ConnectionMachine × Decision
unfolding begin_active_close
elapse_call m c timer now none = (m, stale)
elapse_call m c timer now (some p) =
    if ltb now p.deadline
    then (m, applies (schedule_deadline c.epoch p.call_id timer p.deadline ∷ []))
    else decide applies (
        begin_active_close m (deadline_exceeded p.call_id)
          (some (p.call_id, CallFailure.out_of_time)))

unfoldable pub deadline_elapsed :
    ConnectionMachine → ConnectionEpoch → TimerId → Moment → ConnectionMachine × Decision
unfolding elapse_call
deadline_elapsed m epoch timer now = elim m.state [
  | opening expected effect transport expected_timer deadline ↦
      let reason = open_failed TransportFailure.timed_out in
      if epoch != expected || timer != expected_timer
      then (m, stale)
      else if ltb now deadline
      then (m, applies (schedule_open_deadline epoch timer deadline ∷ []))
      else (
        record m { state = closing epoch transport reason },
        applies (close_transport epoch transport reason ∷ []),
      )
  | authenticating e t c child ↦
      authentication_input m (Authentication.deadline_elapsed epoch timer now)
  | negotiating expected transport effect expected_timer deadline ↦
      let reason = negotiation_failed Session.elapsed in
      let (session, transition) = Session.apply m.session (Session.deadline_elapsed now) in
      let m1 = record m { session = session } in
      if epoch != expected || timer != expected_timer
      then (m, stale)
      else if is_stale transition
      then (m1, stale)
      else if ltb now deadline
      then (m1, applies (schedule_negotiation_deadline epoch timer deadline ∷ []))
      else (
        record m1 { state = closing epoch transport reason },
        applies (close_transport epoch transport reason ∷ []),
      )
  | active mode c ↦
      if epoch != c.epoch
      then (m, stale)
      else elapse_call m c timer now (by_timer timer c.pending.calls)
  | _ ↦ (m, stale)
]
