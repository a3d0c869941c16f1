-- ===== src/Core/Connection/Phases/Calls.antt =====
-- The order of the phases of a connection epoch: calls, responses, deadlines and
-- the end of the epoch, in flow.rs, response.rs, close.rs, lifecycle.rs and transport_close.rs.

use kafka_driver.Base.{ℕ, List, [], ◌∷◌, ◌≡◌, refl, arith, Option-cases, inl, inr}
use kafka_driver.Base.{List, ℕ, ◌∷◌, [], ◌≡◌, arith, refl}
use kafka_driver.Core.Connection.{List, ℕ}
use kafka_driver.Core.Connection.Accounting.{pending_calls}
use kafka_driver.Core.Connection.State.{
  ConnectionMachine, StateData, active, ActiveMode, ActiveConnection, TransportFailure,
  ResponseFault,
}
use kafka_driver.Core.Connection.Pending.{PendingCall, remove_awaiting_write, submit_in, by_timer}
use kafka_driver.Core.Connection.Flow
use kafka_driver.Core.Connection.Response
use kafka_driver.Core.Connection.Lifecycle
use kafka_driver.Core.Connection.Flow.{Submitted, decided, invalid}
use kafka_driver.Core.Authentication
use kafka_driver.Core.Authentication.{
  AuthenticationInput, AuthenticationEffect, AuthenticationMachine, AuthenticationAttempt,
  AuthenticationPolicy,
}
use kafka_driver.Core.Identity.{EffectId}
use kafka_driver.Core.Connection.Phases.Progress.{Forward}
use kafka_driver.Core.Connection.Phases.Setup.{authentication-Forward}

pub write_submitted-Forward :
    (m : ConnectionMachine) (epoch transport : ℕ) (effect : EffectId)
    → Forward m.state (Flow.write_submitted m epoch transport effect)
unfolding Flow.write_submitted
write_submitted-Forward m epoch transport effect =
    elim (Option-cases (submit_in effect (pending_calls m.state))) [
      | inl missed ↦ ground (arith, missed)
      | inr (rest, found) ↦ ground (arith, found)
    ]

pub abort-Forward :
    (m : ConnectionMachine) (epoch transport c : ℕ) (effect : EffectId)
    → Forward m.state (Flow.abort_unsent_call m epoch transport c effect)
unfolding Flow.abort_unsent_call
abort-Forward m epoch transport c effect =
    elim (Option-cases (remove_awaiting_write c effect (pending_calls m.state))) [
      | inl missed ↦ ground (arith, missed)
      | inr ((x, rest), found) ↦ ground (arith, found)
    ]

pub write_failed-Forward :
    (m : ConnectionMachine) (epoch transport : ℕ) (effect : EffectId) (why : TransportFailure)
    → Forward m.state (Flow.write_failed m epoch transport effect why)
unfolding Flow.write_failed
write_failed-Forward m epoch transport effect why = ground arith

pub rejected-Forward :
    (m : ConnectionMachine) (epoch transport : ℕ) (why : ResponseFault)
    → Forward m.state (Response.response_rejected m epoch transport why)
unfolding Response.response_rejected
rejected-Forward m epoch transport ResponseFault.unexpected = ground arith
rejected-Forward m epoch transport ResponseFault.malformed = ground arith

pub respond-Forward :
    (m : ConnectionMachine) (mode : ActiveMode) (c : ActiveConnection) (received : ℕ)
    (ps : List PendingCall)
    → m.state ≡ active mode c
    → c.pending.calls ≡ ps
    → Forward (active mode c) (Response.respond m mode c received ps)
unfolding Response.respond
respond-Forward m mode c received [] at_state same = ground (arith, same, at_state)
respond-Forward m mode c received (p ∷ ps) at_state same = ground (arith, same, at_state)

pub received-Forward :
    (m : ConnectionMachine) (s : StateData) (epoch transport received : ℕ)
    → m.state ≡ s
    → Forward s (Response.response_received m epoch transport received)
unfolding Response.response_received
received-Forward m (active mode c) epoch transport received e =
    ground (arith, e, respond-Forward m mode c received c.pending.calls e refl)
received-Forward m _ epoch transport received e = ground (arith, e)

pub elapsed-Forward :
    (m : ConnectionMachine) (epoch timer now : ℕ)
    → Forward m.state (Response.deadline_elapsed m epoch timer now)
unfolding Response.deadline_elapsed
elapsed-Forward m epoch timer now =
    let child =
      authentication-Forward m m.state (Authentication.deadline_elapsed epoch timer now) refl in
    elim (Option-cases (by_timer timer (pending_calls m.state))) [
      | inl missed ↦ ground (arith, missed, child)
      | inr (p, found) ↦ ground (arith, found, child)
    ]

pub drain-Forward : (m : ConnectionMachine) → Forward m.state (Lifecycle.begin_drain m)
unfolding Lifecycle.begin_drain
drain-Forward m = ground arith

pub closed-Forward :
    (m : ConnectionMachine) (s : StateData) (epoch transport : ℕ) (why : TransportFailure)
    → m.state ≡ s
    → Forward s (Lifecycle.transport_closed m epoch transport why)
unfolding Lifecycle.transport_closed
closed-Forward m (active mode c) epoch transport why same = ground (arith, same)
closed-Forward m _ epoch transport why same = ground (arith, same)
