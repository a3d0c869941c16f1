-- ===== src/Core/Connection/Quiet/Calls.antt =====
-- Steps that complete no call: calls, responses, deadlines and
-- the end of the epoch, in flow.rs, response.rs, close.rs, lifecycle.rs and transport_close.rs.
use kafka_driver.Core.Connection.Accounting.{pending_calls}
use kafka_driver.Core.Authentication.{CorrelationId}
use kafka_driver.Base.{ℕ, none, some, ◌≡◌, refl, arith, Option-cases, inl, inr}
use kafka_driver.Base.{ℕ, ◌≡◌, arith, some, refl}
use kafka_driver.Core.Connection.{ℕ}
use kafka_driver.Core.Connection.State.{
  ConnectionMachine, StateData, active, transport_lost, unexpected_response, malformed_response,
  deadline_exceeded, CallFailure, TransportFailure, ResponseFault,
}
use kafka_driver.Core.Connection.Pending.{by_timer}
use kafka_driver.Core.Connection.Flow
use kafka_driver.Core.Connection.Response
use kafka_driver.Core.Connection.Lifecycle
use kafka_driver.Core.Connection.Flow.{Submitted, decided, invalid}
use kafka_driver.Core.Authentication
use kafka_driver.Core.Authentication.{
  AuthenticationInput, AuthenticationEffect, AuthenticationMachine, AuthenticationAttempt,
  AuthenticationPolicy,
}
use kafka_driver.Core.Identity.{EffectId}
use kafka_driver.Core.Connection.Quiet.Quietness.{Quiet, completed-failures}
use kafka_driver.Core.Connection.Quiet.Setup.{authentication-Quiet}

pub write_failed-Quiet :
    (m : ConnectionMachine) (epoch transport : ℕ) (effect : EffectId) (why : TransportFailure)
    → Quiet m.state (Flow.write_failed m epoch transport effect why)
unfolding Flow.write_failed
write_failed-Quiet m epoch transport effect why =
    ground (arith, completed-failures (transport_lost why) none (pending_calls m.state))

pub rejected-Quiet :
    (m : ConnectionMachine) (epoch transport : ℕ) (why : ResponseFault)
    → Quiet m.state (Response.response_rejected m epoch transport why)
unfolding Response.response_rejected
rejected-Quiet m epoch transport ResponseFault.unexpected =
    ground (arith, completed-failures unexpected_response none (pending_calls m.state))
rejected-Quiet m epoch transport ResponseFault.malformed =
    ground (arith, completed-failures malformed_response none (pending_calls m.state))

pub elapsed-Quiet :
    (m : ConnectionMachine) (epoch timer now : ℕ)
    → Quiet m.state (Response.deadline_elapsed m epoch timer now)
unfolding Response.deadline_elapsed
elapsed-Quiet m epoch timer now =
    let child =
      authentication-Quiet m m.state (Authentication.deadline_elapsed epoch timer now) refl in
    elim (Option-cases (by_timer timer (pending_calls m.state))) [
      | inl missed ↦ ground (arith, missed, child)
      | inr (p, found) ↦ ground (
        arith,
        found,
        child,
        completed-failures (deadline_exceeded p.call_id) (some (p.call_id, CallFailure.out_of_time))
            (pending_calls m.state),
      )
    ]

pub drain-Quiet : (m : ConnectionMachine) → Quiet m.state (Lifecycle.begin_drain m)
unfolding Lifecycle.begin_drain
drain-Quiet m = ground arith

pub closed-Quiet :
    (m : ConnectionMachine) (s : StateData) (epoch transport : ℕ) (why : TransportFailure)
    → m.state ≡ s
    → Quiet s (Lifecycle.transport_closed m epoch transport why)
unfolding Lifecycle.transport_closed
closed-Quiet m (active mode c) epoch transport why same =
    ground (arith, same, completed-failures (transport_lost why) none c.pending.calls)
closed-Quiet m _ epoch transport why same = ground (arith, same)
