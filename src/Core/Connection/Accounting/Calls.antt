-- ===== src/Core/Connection/Accounting/Calls.antt =====
-- The answers to the calls of a connection epoch: calls, responses, deadlines and
-- the end of the epoch, in flow.rs, response.rs, close.rs, lifecycle.rs and transport_close.rs.

use kafka_driver.Base.{ℕ, none, some, List, [], ◌∷◌, ◌≡◌, refl, arith, Option-cases, inl, inr}
use kafka_driver.Base.{List, ℕ, ◌∷◌, [], ◌≡◌, arith, some, refl}
use kafka_driver.Core.Connection.{List, ℕ}
use kafka_driver.Core.Connection.State.{
  ConnectionMachine, StateData, active, ActiveMode, ActiveConnection, transport_lost,
  unexpected_response, malformed_response, correlation_mismatch, mismatched, deadline_exceeded,
  CallFailure, TransportFailure, ResponseFault,
}
use kafka_driver.Core.Connection.Pending.{PendingCall, remove_awaiting_write, submit_in, by_timer}
use kafka_driver.Core.Connection.Flow
use kafka_driver.Core.Connection.Response
use kafka_driver.Core.Connection.Lifecycle
use kafka_driver.Core.Connection.Flow.{Submitted, decided, invalid}
use kafka_driver.Core.Authentication
use kafka_driver.Core.Authentication.{
  AuthenticationInput, AuthenticationEffect, AuthenticationMachine, AuthenticationAttempt,
  AuthenticationPolicy,
}
use kafka_driver.Core.Identity.{CallId, EffectId}
use kafka_driver.Core.Connection.Accounting.Balance.{
  pending_calls, answers-failures, waiting-submit_in, waiting-remove, Balanced,
}
use kafka_driver.Core.Connection.Accounting.Setup.{authentication-Balanced}

pub write_submitted-Balanced :
    (call : CallId) (m : ConnectionMachine) (epoch transport : ℕ) (effect : EffectId)
    → Balanced call m.state 0 (Flow.write_submitted m epoch transport effect)
unfolding Flow.write_submitted
write_submitted-Balanced call m epoch transport effect =
    elim (Option-cases (submit_in effect (pending_calls m.state))) [
      | inl missed ↦ ground (arith, missed)
      | inr (rest, found) ↦ ground (arith, found, waiting-submit_in call effect _ rest found)
    ]

pub abort-Balanced :
    (call : CallId) (m : ConnectionMachine) (epoch transport c : ℕ) (effect : EffectId)
    → Balanced call m.state 0 (Flow.abort_unsent_call m epoch transport c effect)
unfolding Flow.abort_unsent_call
abort-Balanced call m epoch transport c effect =
    elim (Option-cases (remove_awaiting_write c effect (pending_calls m.state))) [
      | inl missed ↦ ground (arith, missed)
      | inr ((x, rest), found) ↦ ground (arith, found, waiting-remove call c effect _ rest x found)
    ]

pub write_failed-Balanced :
    (call : CallId) (m : ConnectionMachine) (epoch transport : ℕ) (effect : EffectId)
    (why : TransportFailure)
    → Balanced call m.state 0 (Flow.write_failed m epoch transport effect why)
unfolding Flow.write_failed
write_failed-Balanced call m epoch transport effect why =
    ground (arith, answers-failures call (transport_lost why) none (pending_calls m.state))

pub rejected-Balanced :
    (call : CallId) (m : ConnectionMachine) (epoch transport : ℕ) (why : ResponseFault)
    → Balanced call m.state 0 (Response.response_rejected m epoch transport why)
unfolding Response.response_rejected
rejected-Balanced call m epoch transport ResponseFault.unexpected =
    ground (arith, answers-failures call unexpected_response none (pending_calls m.state))
rejected-Balanced call m epoch transport ResponseFault.malformed =
    ground (arith, answers-failures call malformed_response none (pending_calls m.state))

pub respond-Balanced :
    (call : CallId) (m : ConnectionMachine) (mode : ActiveMode) (c : ActiveConnection)
    (received : ℕ) (ps : List PendingCall)
    → m.state ≡ active mode c
    → c.pending.calls ≡ ps
    → Balanced call (active mode c) 0 (Response.respond m mode c received ps)
unfolding Response.respond
respond-Balanced call m mode c received [] at_state same =
    ground (arith, same, at_state, answers-failures call unexpected_response none c.pending.calls)
respond-Balanced call m mode c received (p ∷ ps) at_state same = ground (
  arith,
  same,
  at_state,
  answers-failures call unexpected_response none c.pending.calls,
  answers-failures call (correlation_mismatch p.correlation_id received)
      (some (p.call_id, mismatched p.correlation_id received)) c.pending.calls,
)

pub received-Balanced :
    (call : CallId) (m : ConnectionMachine) (s : StateData) (epoch transport received : ℕ)
    → m.state ≡ s
    → Balanced call s 0 (Response.response_received m epoch transport received)
unfolding Response.response_received
received-Balanced call m (active mode c) epoch transport received e =
    ground (arith, e, respond-Balanced call m mode c received c.pending.calls e refl)
received-Balanced call m _ epoch transport received e = ground (arith, e)

pub elapsed-Balanced :
    (call : CallId) (m : ConnectionMachine) (epoch timer now : ℕ)
    → Balanced call m.state 0 (Response.deadline_elapsed m epoch timer now)
unfolding Response.deadline_elapsed
elapsed-Balanced call m epoch timer now =
    let child =
      authentication-Balanced call m m.state (Authentication.deadline_elapsed epoch timer now)
        refl in
    elim (Option-cases (by_timer timer (pending_calls m.state))) [
      | inl missed ↦ ground (arith, missed, child)
      | inr (p, found) ↦ ground (
        arith,
        found,
        child,
        answers-failures call (deadline_exceeded p.call_id)
            (some (p.call_id, CallFailure.out_of_time)) (pending_calls m.state),
      )
    ]

pub drain-Balanced :
    (call : CallId) (m : ConnectionMachine) → Balanced call m.state 0 (Lifecycle.begin_drain m)
unfolding Lifecycle.begin_drain
drain-Balanced call m = ground arith

pub closed-Balanced :
    (call : CallId) (m : ConnectionMachine) (s : StateData) (epoch transport : ℕ)
    (why : TransportFailure)
    → m.state ≡ s
    → Balanced call s 0 (Lifecycle.transport_closed m epoch transport why)
unfolding Lifecycle.transport_closed
closed-Balanced call m (active mode c) epoch transport why same =
    ground (arith, same, answers-failures call (transport_lost why) none c.pending.calls)
closed-Balanced call m _ epoch transport why same = ground (arith, same)
