-- ===== src/Core/Connection/Lifecycle.antt =====
-- Drain and loss of the transport: lifecycle.rs and transport_close.rs of
-- crates/kafka-driver-core/src/connection.
use kafka_driver.Base.{Option, none, some, List, [], ◌∷◌, ◌!=◌, if◌then◌else◌}
use kafka_driver.Core.Identity.{TimerId, TransportId, ConnectionEpoch}
use kafka_driver.Core.Authentication
use kafka_driver.Core.Authentication.{AuthenticationMachine, CorrelationId}
use kafka_driver.Core.Session
use kafka_driver.Core.Session.{SessionMachine, SessionInput}
use kafka_driver.Core.Connection.Pending.{is_empty}
use kafka_driver.Core.Connection.State.{
  TransportFailure, drained, requested, transport_lost, ActiveMode, dormant, opening, negotiating,
  authenticating, active, closing, closed, ConnectionEffect, cancel_deadline, close_transport,
  Decision, applies, ignores, stale, ConnectionMachine, authenticates, state_epoch,
}
use kafka_driver.Core.Connection.Close.{apply_session, decide, finish_active_close}

abbrev cancels_child : Option TimerId → List ConnectionEffect
cancels_child none = []
cancels_child (some timer) = authenticates (Authentication.cancel_deadline timer) ∷ []

unfoldable pub begin_drain : ConnectionMachine → ConnectionMachine × Decision
begin_drain m =
    let told = apply_session m Session.begin_drain in
    elim m.state [
      | dormant epoch ↦ (record m { state = closed epoch requested }, applies [])
      | opening epoch effect transport timer deadline ↦ (
        record m { state = closing epoch transport requested },
        applies (close_transport epoch transport requested ∷ cancel_deadline timer ∷ []),
      )
      | negotiating epoch transport effect timer deadline ↦ (
        record told { state = closing epoch transport requested },
        applies (close_transport epoch transport requested ∷ cancel_deadline timer ∷ []),
      )
      | authenticating epoch transport c child ↦ (
        record told { state = closing epoch transport requested },
        applies (
            close_transport epoch transport requested
            ∷ cancels_child (Authentication.owned_timer child)),
      )
      | active ActiveMode.ready c ↦
          if is_empty c.pending
          then (
            record (apply_session told Session.all_drained) {
              state = closing c.epoch c.transport_id drained;
            },
            applies (close_transport c.epoch c.transport_id drained ∷ []),
          )
          else (record told { state = active ActiveMode.draining c }, applies [])
      | _ ↦ (m, ignores)
    ]

-- The epoch has been compared; what is left is the transport of the state.
unfoldable pub lose_transport :
    ConnectionMachine
    → ConnectionEpoch
    → TransportId
    → TransportFailure
    → ConnectionMachine × Decision
unfolding finish_active_close
lose_transport m epoch transport why =
    let told = apply_session m Session.transport_gone in
    let reason = transport_lost why in
    elim m.state [
      | opening e effect expected timer deadline ↦
          if expected != transport
          then (m, stale)
          else (record told { state = closed epoch reason }, applies (cancel_deadline timer ∷ []))
      | negotiating e expected effect timer deadline ↦
          if expected != transport
          then (m, stale)
          else (record told { state = closed epoch reason }, applies (cancel_deadline timer ∷ []))
      | authenticating e expected c child ↦ if expected != transport then (m, stale) else (
        record told { state = closed epoch reason },
        applies (cancels_child (Authentication.owned_timer child)),
      )
      | active mode c ↦
          if c.transport_id != transport
          then (m, stale)
          else decide applies (finish_active_close told c reason)
      | closing e expected r ↦
          if expected != transport
          then (m, stale)
          else (record told { state = closed epoch r }, applies [])
      | _ ↦ (m, stale)
    ]

unfoldable pub transport_closed :
    ConnectionMachine
    → ConnectionEpoch
    → TransportId
    → TransportFailure
    → ConnectionMachine × Decision
unfolding lose_transport
transport_closed m epoch transport why =
    if epoch != state_epoch m.state then (m, stale) else lose_transport m epoch transport why
