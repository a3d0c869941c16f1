-- ===== src/Core/Connection/Sync/Calls.antt =====
-- A connection epoch beside its session: calls, responses, deadlines and
-- the end of the epoch, in flow.rs, response.rs, close.rs, lifecycle.rs and transport_close.rs.

use kafka_driver.Base.{ℕ, List, [], ◌∷◌, ◌≡◌, refl, arith, inl, inr, Option-cases, inl, inr}
use kafka_driver.Base.{List, ℕ, ◌∷◌, [], ◌≡◌, arith, refl}
use kafka_driver.Core.Connection.{List, ℕ}
use kafka_driver.Core.Connection.Accounting.{pending_calls}
use kafka_driver.Core.Connection.State.{
  ConnectionMachine, StateData, active, ActiveMode, ActiveConnection, TransportFailure,
  ResponseFault,
}
use kafka_driver.Core.Connection.Pending.{PendingCall, remove_awaiting_write, submit_in, by_timer}
use kafka_driver.Core.Connection.Flow
use kafka_driver.Core.Connection.Response
use kafka_driver.Core.Connection.Lifecycle
use kafka_driver.Core.Connection.Flow.{Submitted, decided, invalid}
use kafka_driver.Core.Authentication
use kafka_driver.Core.Authentication.{
  AuthenticationInput, AuthenticationEffect, AuthenticationMachine, AuthenticationAttempt,
  AuthenticationPolicy,
}
use kafka_driver.Core.Session
use kafka_driver.Core.Session.{sasl_setup, SaslSetup, usable, unusable, NegotiationFailure}
use kafka_driver.Core.Identity.{EffectId}
use kafka_driver.Core.Connection.Sync.Agreement.{Follows}
use kafka_driver.Core.Connection.Sync.Setup.{authentication-Follows}

pub write_submitted-Follows :
    (m : ConnectionMachine) (epoch transport : ℕ) (effect : EffectId)
    → Follows m (Flow.write_submitted m epoch transport effect)
unfolding Flow.write_submitted
write_submitted-Follows m epoch transport effect =
    elim (Option-cases (submit_in effect (pending_calls m.state))) [
      | inl missed ↦ ground (arith, missed)
      | inr (rest, found) ↦ ground (arith, found)
    ]

pub abort-Follows :
    (m : ConnectionMachine) (epoch transport c : ℕ) (effect : EffectId)
    → Follows m (Flow.abort_unsent_call m epoch transport c effect)
unfolding Flow.abort_unsent_call Session.apply
abort-Follows m epoch transport c effect =
    elim (Option-cases (remove_awaiting_write c effect (pending_calls m.state))) [
      | inl missed ↦ ground (arith, missed)
      | inr ((x, rest), found) ↦ ground (arith, found)
    ]

pub write_failed-Follows :
    (m : ConnectionMachine) (epoch transport : ℕ) (effect : EffectId) (why : TransportFailure)
    → Follows m (Flow.write_failed m epoch transport effect why)
unfolding Flow.write_failed
write_failed-Follows m epoch transport effect why = ground arith

pub rejected-Follows :
    (m : ConnectionMachine) (epoch transport : ℕ) (why : ResponseFault)
    → Follows m (Response.response_rejected m epoch transport why)
unfolding Response.response_rejected Session.apply
rejected-Follows m epoch transport ResponseFault.unexpected = ground arith
rejected-Follows m epoch transport ResponseFault.malformed = ground arith

pub respond-Follows :
    (m : ConnectionMachine) (mode : ActiveMode) (c : ActiveConnection) (received : ℕ)
    (ps : List PendingCall)
    → m.state ≡ active mode c
    → c.pending.calls ≡ ps
    → Follows m (Response.respond m mode c received ps)
unfolding Response.respond Session.apply
respond-Follows m mode c received [] at_state same = ground (arith, same, at_state)
respond-Follows m mode c received (p ∷ ps) at_state same = ground (arith, same, at_state)

pub received-Follows :
    (m : ConnectionMachine) (s : StateData) (epoch transport received : ℕ)
    → m.state ≡ s
    → Follows m (Response.response_received m epoch transport received)
unfolding Response.response_received
received-Follows m (active mode c) epoch transport received e =
    ground (arith, e, respond-Follows m mode c received c.pending.calls e refl)
received-Follows m _ epoch transport received e = ground (arith, e)

pub elapsed-Follows :
    (m : ConnectionMachine) (epoch timer now : ℕ)
    → Follows m (Response.deadline_elapsed m epoch timer now)
unfolding Response.deadline_elapsed Session.apply
elapsed-Follows m epoch timer now =
    let child =
      authentication-Follows m m.state (Authentication.deadline_elapsed epoch timer now) refl in
    elim (Option-cases (by_timer timer (pending_calls m.state))) [
      | inl missed ↦ ground (arith, missed, child)
      | inr (p, found) ↦ ground (arith, found, child)
    ]

pub drain-Follows : (m : ConnectionMachine) → Follows m (Lifecycle.begin_drain m)
unfolding Lifecycle.begin_drain Session.apply
drain-Follows m = ground arith

pub closed-Follows :
    (m : ConnectionMachine) (s : StateData) (epoch transport : ℕ) (why : TransportFailure)
    → m.state ≡ s
    → Follows m (Lifecycle.transport_closed m epoch transport why)
unfolding Lifecycle.transport_closed Session.apply
closed-Follows m (active mode c) epoch transport why same = ground (arith, same)
closed-Follows m _ epoch transport why same = ground (arith, same)
