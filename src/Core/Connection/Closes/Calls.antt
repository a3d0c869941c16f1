-- ===== src/Core/Connection/Closes/Calls.antt =====
-- Requests to close the transport of a connection epoch: calls, responses, deadlines and
-- the end of the epoch, in flow.rs, response.rs, close.rs, lifecycle.rs and transport_close.rs.

use kafka_driver.Base.{ℕ, none, some, List, [], ◌∷◌, ◌≡◌, refl, arith, Option-cases, inl, inr}
use kafka_driver.Base.{List, ℕ, ◌∷◌, [], ◌≡◌, arith, some, refl}
use kafka_driver.Core.Connection.{List, ℕ}
use kafka_driver.Core.Connection.State.{
  ConnectionMachine, StateData, active, ActiveMode, ActiveConnection, transport_lost,
  unexpected_response, malformed_response, correlation_mismatch, mismatched, deadline_exceeded,
  CallFailure, TransportFailure, ResponseFault,
}
use kafka_driver.Core.Connection.Pending.{PendingCall, remove_awaiting_write, submit_in, by_timer}
use kafka_driver.Core.Connection.Flow
use kafka_driver.Core.Connection.Response
use kafka_driver.Core.Connection.Lifecycle
use kafka_driver.Core.Connection.Flow.{Submitted, decided, invalid}
use kafka_driver.Core.Authentication
use kafka_driver.Core.Authentication.{
  AuthenticationInput, AuthenticationEffect, AuthenticationMachine, AuthenticationAttempt,
  AuthenticationPolicy,
}
use kafka_driver.Core.Identity.{EffectId}
use kafka_driver.Core.Connection.Accounting.{pending_calls}
use kafka_driver.Core.Connection.Closes.Once.{ClosesOnce, closes-failures}
use kafka_driver.Core.Connection.Closes.Setup.{authentication-ClosesOnce}

pub write_submitted-ClosesOnce :
    (m : ConnectionMachine) (epoch transport : ℕ) (effect : EffectId)
    → ClosesOnce m.state (Flow.write_submitted m epoch transport effect)
unfolding Flow.write_submitted
write_submitted-ClosesOnce m epoch transport effect =
    elim (Option-cases (submit_in effect (pending_calls m.state))) [
      | inl missed ↦ ground (arith, missed)
      | inr (rest, found) ↦ ground (arith, found)
    ]

pub abort-ClosesOnce :
    (m : ConnectionMachine) (epoch transport c : ℕ) (effect : EffectId)
    → ClosesOnce m.state (Flow.abort_unsent_call m epoch transport c effect)
unfolding Flow.abort_unsent_call
abort-ClosesOnce m epoch transport c effect =
    elim (Option-cases (remove_awaiting_write c effect (pending_calls m.state))) [
      | inl missed ↦ ground (arith, missed)
      | inr ((x, rest), found) ↦ ground (arith, found)
    ]

pub write_failed-ClosesOnce :
    (m : ConnectionMachine) (epoch transport : ℕ) (effect : EffectId) (why : TransportFailure)
    → ClosesOnce m.state (Flow.write_failed m epoch transport effect why)
unfolding Flow.write_failed
write_failed-ClosesOnce m epoch transport effect why =
    ground (arith, closes-failures (transport_lost why) none (pending_calls m.state))

pub rejected-ClosesOnce :
    (m : ConnectionMachine) (epoch transport : ℕ) (why : ResponseFault)
    → ClosesOnce m.state (Response.response_rejected m epoch transport why)
unfolding Response.response_rejected
rejected-ClosesOnce m epoch transport ResponseFault.unexpected =
    ground (arith, closes-failures unexpected_response none (pending_calls m.state))
rejected-ClosesOnce m epoch transport ResponseFault.malformed =
    ground (arith, closes-failures malformed_response none (pending_calls m.state))

pub respond-ClosesOnce :
    (m : ConnectionMachine) (mode : ActiveMode) (c : ActiveConnection) (received : ℕ)
    (ps : List PendingCall)
    → m.state ≡ active mode c
    → c.pending.calls ≡ ps
    → ClosesOnce (active mode c) (Response.respond m mode c received ps)
unfolding Response.respond
respond-ClosesOnce m mode c received [] at_state same =
    ground (arith, same, at_state, closes-failures unexpected_response none c.pending.calls)
respond-ClosesOnce m mode c received (p ∷ ps) at_state same = ground (
  arith,
  same,
  at_state,
  closes-failures unexpected_response none c.pending.calls,
  closes-failures (correlation_mismatch p.correlation_id received)
      (some (p.call_id, mismatched p.correlation_id received)) c.pending.calls,
)

pub received-ClosesOnce :
    (m : ConnectionMachine) (s : StateData) (epoch transport received : ℕ)
    → m.state ≡ s
    → ClosesOnce s (Response.response_received m epoch transport received)
unfolding Response.response_received
received-ClosesOnce m (active mode c) epoch transport received e =
    ground (arith, e, respond-ClosesOnce m mode c received c.pending.calls e refl)
received-ClosesOnce m _ epoch transport received e = ground (arith, e)

pub elapsed-ClosesOnce :
    (m : ConnectionMachine) (epoch timer now : ℕ)
    → ClosesOnce m.state (Response.deadline_elapsed m epoch timer now)
unfolding Response.deadline_elapsed
elapsed-ClosesOnce m epoch timer now =
    let child =
      authentication-ClosesOnce m m.state (Authentication.deadline_elapsed epoch timer now) refl in
    elim (Option-cases (by_timer timer (pending_calls m.state))) [
      | inl missed ↦ ground (arith, missed, child)
      | inr (p, found) ↦ ground (
        arith,
        found,
        child,
        closes-failures (deadline_exceeded p.call_id) (some (p.call_id, CallFailure.out_of_time))
            (pending_calls m.state),
      )
    ]

pub drain-ClosesOnce : (m : ConnectionMachine) → ClosesOnce m.state (Lifecycle.begin_drain m)
unfolding Lifecycle.begin_drain
drain-ClosesOnce m = ground arith

pub closed-ClosesOnce :
    (m : ConnectionMachine) (s : StateData) (epoch transport : ℕ) (why : TransportFailure)
    → m.state ≡ s
    → ClosesOnce s (Lifecycle.transport_closed m epoch transport why)
unfolding Lifecycle.transport_closed
closed-ClosesOnce m (active mode c) epoch transport why same =
    ground (arith, same, closes-failures (transport_lost why) none c.pending.calls)
closed-ClosesOnce m _ epoch transport why same = ground (arith, same)
