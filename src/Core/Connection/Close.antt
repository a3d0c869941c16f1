-- ===== src/Core/Connection/Close.antt =====
-- The ways an active epoch ends: close.rs of crates/kafka-driver-core/src/connection.
use kafka_driver.Base.{Option, none, some, List, [], ◌∷◌, ◌++◌, ◌==◌, if◌then◌else◌}
use kafka_driver.Core.Identity.{CallId}
use kafka_driver.Core.Session
use kafka_driver.Core.Session.{SessionMachine, SessionInput}
use kafka_driver.Core.Connection.Pending.{PendingCall, is_empty}
use kafka_driver.Core.Connection.State.{
  CloseReason, drained, CallFailure, connection_closed, ActiveMode, ActiveConnection, dormant,
  opening, negotiating, authenticating, active, closing, closed, ConnectionEffect, cancel_deadline,
  fail_call, close_transport, Decision, applies, ConnectionMachine,
}

-- A call that gets a failure of its own, where the reason of the close has one.
abbrev pub Specific : Type 0
Specific = Option (CallId × CallFailure)

abbrev pub failure_of : CloseReason → Specific → CallId → CallFailure
failure_of reason none c = connection_closed reason
failure_of reason (some (call, why)) c = if call == c then why else connection_closed reason

unfoldable pub failures : CloseReason → Specific → List PendingCall → List ConnectionEffect
failures reason specific [] = []
failures reason specific (p ∷ ps) =
    cancel_deadline p.deadline_timer
    ∷ fail_call p.call_id (failure_of reason specific p.call_id) p.delivery
    ∷ failures reason specific ps

unfoldable pub begin_active_close :
    ConnectionMachine → CloseReason → Specific → ConnectionMachine × List ConnectionEffect
unfolding failures
begin_active_close m reason specific = elim m.state [
  | active mode c ↦ (
    record m { state = closing c.epoch c.transport_id reason },
    close_transport c.epoch c.transport_id reason ∷ failures reason specific c.pending.calls,
  )
  | dormant e ↦ (record m { state = closed e reason }, [])
  | opening e f t timer d ↦ (record m { state = closed e reason }, [])
  | negotiating e t f timer d ↦ (record m { state = closed e reason }, [])
  | authenticating e t c child ↦ (record m { state = closed e reason }, [])
  | closing e t r ↦ (record m { state = closed e reason }, [])
  | closed e r ↦ (record m { state = closed e reason }, [])
]

unfoldable pub finish_active_close :
    ConnectionMachine → ActiveConnection → CloseReason → ConnectionMachine × List ConnectionEffect
unfolding failures
finish_active_close m c reason =
    (record m { state = closed c.epoch reason }, failures reason none c.pending.calls)

abbrev pub apply_session : ConnectionMachine → SessionInput → ConnectionMachine
apply_session m i = record m { session = (Session.apply m.session i).0 }

-- A draining epoch whose last call is gone closes.
unfoldable pub close_if_drained :
    ConnectionMachine
    → ActiveMode
    → ActiveConnection
    → List ConnectionEffect
    → ConnectionMachine × Decision
close_if_drained m ActiveMode.ready c effects =
    (record m { state = active ActiveMode.ready c }, applies effects)
close_if_drained m ActiveMode.draining c effects =
    if is_empty c.pending
    then (
      record (apply_session m Session.all_drained) {
        state = closing c.epoch c.transport_id drained;
      },
      applies (effects ++ close_transport c.epoch c.transport_id drained ∷ []),
    )
    else (record m { state = active ActiveMode.draining c }, applies effects)

-- A close of the active epoch, with its effects as a decision.
abbrev pub decide :
    (List ConnectionEffect → Decision)
    → ConnectionMachine × List ConnectionEffect
    → ConnectionMachine × Decision
decide make (m, effects) = (m, make effects)
