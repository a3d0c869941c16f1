-- ===== src/Core/Connection/Invariant/Calls.antt =====
-- The queue of an active connection epoch: calls, responses, deadlines and
-- the end of the epoch, in flow.rs, response.rs, close.rs, lifecycle.rs and transport_close.rs.

use kafka_driver.Core.Connection.Queue.{
  QueueIsValid, empty-IsValid, submit_in-IsValid, remove-IsValid,
}
use kafka_driver.Base.{ℕ, List, [], ◌∷◌, ◌≡◌, refl, arith, Option-cases, inl, inr}
use kafka_driver.Base.{List, ℕ, ◌∷◌, [], ◌≡◌, arith, refl}
use kafka_driver.Core.Connection.{List, ℕ}
use kafka_driver.Core.Connection.Accounting.{pending_calls}
use kafka_driver.Core.Connection.State.{
  ConnectionMachine, StateData, active, ActiveMode, ActiveConnection, TransportFailure,
  ResponseFault,
}
use kafka_driver.Core.Connection.Pending.{PendingCall, remove_awaiting_write, submit_in, by_timer}
use kafka_driver.Core.Connection.Flow
use kafka_driver.Core.Connection.Response
use kafka_driver.Core.Connection.Lifecycle
use kafka_driver.Core.Connection.Flow.{Submitted, decided, invalid}
use kafka_driver.Core.Authentication
use kafka_driver.Core.Authentication.{
  AuthenticationInput, AuthenticationEffect, AuthenticationMachine, AuthenticationAttempt,
  AuthenticationPolicy,
}
use kafka_driver.Core.Identity.{EffectId}
use kafka_driver.Core.Connection.Invariant.Validity.{StateIsValid, Keeps}
use kafka_driver.Core.Connection.Invariant.Setup.{authentication-Keeps}

-- A queue without the call that was taken out, or with the write of one call submitted.
pub queue_of :
    (limit : ℕ) (s : StateData) → StateIsValid limit s → QueueIsValid limit (pending_calls s)
queue_of limit (active mode c) v = v.queue
queue_of limit _ v = empty-IsValid limit

pub write_submitted-Keeps :
    (m : ConnectionMachine) (epoch transport : ℕ) (effect : EffectId)
    → Keeps m (Flow.write_submitted m epoch transport effect)
unfolding Flow.write_submitted
write_submitted-Keeps m epoch transport effect =
    elim (Option-cases (submit_in effect (pending_calls m.state))) [
      | inl missed ↦ ground (arith, missed)
      | inr (rest, found) ↦ (
        ground (arith, found),
        λ v. ground (
          arith,
          found,
          v,
          submit_in-IsValid m.limits.in_flight effect (pending_calls m.state) rest found
              (queue_of m.limits.in_flight m.state v),
        ),
      )
    ]

pub abort-Keeps :
    (m : ConnectionMachine) (epoch transport c : ℕ) (effect : EffectId)
    → Keeps m (Flow.abort_unsent_call m epoch transport c effect)
unfolding Flow.abort_unsent_call
abort-Keeps m epoch transport c effect =
    elim (Option-cases (remove_awaiting_write c effect (pending_calls m.state))) [
      | inl missed ↦ ground (arith, missed)
      | inr ((x, rest), found) ↦ (
        ground (arith, found),
        λ v. ground (
          arith,
          found,
          v,
          remove-IsValid m.limits.in_flight c effect (pending_calls m.state) rest x found
              (queue_of m.limits.in_flight m.state v),
        ),
      )
    ]

pub write_failed-Keeps :
    (m : ConnectionMachine) (epoch transport : ℕ) (effect : EffectId) (why : TransportFailure)
    → Keeps m (Flow.write_failed m epoch transport effect why)
unfolding Flow.write_failed
write_failed-Keeps m epoch transport effect why = ground arith

pub rejected-Keeps :
    (m : ConnectionMachine) (epoch transport : ℕ) (why : ResponseFault)
    → Keeps m (Response.response_rejected m epoch transport why)
unfolding Response.response_rejected
rejected-Keeps m epoch transport ResponseFault.unexpected = ground arith
rejected-Keeps m epoch transport ResponseFault.malformed = ground arith

pub respond-Keeps :
    (m : ConnectionMachine) (mode : ActiveMode) (c : ActiveConnection) (received : ℕ)
    (ps : List PendingCall)
    → m.state ≡ active mode c
    → c.pending.calls ≡ ps
    → Keeps m (Response.respond m mode c received ps)
unfolding Response.respond
respond-Keeps m mode c received [] at_state same = ground (arith, same, at_state)
respond-Keeps m mode c received (p ∷ ps) at_state same = ground (arith, same, at_state)

pub received-Keeps :
    (m : ConnectionMachine) (s : StateData) (epoch transport received : ℕ)
    → m.state ≡ s
    → Keeps m (Response.response_received m epoch transport received)
unfolding Response.response_received
received-Keeps m (active mode c) epoch transport received e =
    ground (arith, e, respond-Keeps m mode c received c.pending.calls e refl)
received-Keeps m _ epoch transport received e = ground (arith, e)

pub elapsed-Keeps :
    (m : ConnectionMachine) (epoch timer now : ℕ)
    → Keeps m (Response.deadline_elapsed m epoch timer now)
unfolding Response.deadline_elapsed
elapsed-Keeps m epoch timer now =
    let child =
      authentication-Keeps m m.state (Authentication.deadline_elapsed epoch timer now) refl in
    elim (Option-cases (by_timer timer (pending_calls m.state))) [
      | inl missed ↦ ground (arith, missed, child)
      | inr (p, found) ↦ ground (arith, found, child)
    ]

pub drain-Keeps : (m : ConnectionMachine) → Keeps m (Lifecycle.begin_drain m)
unfolding Lifecycle.begin_drain
drain-Keeps m = ground arith

pub closed-Keeps :
    (m : ConnectionMachine) (s : StateData) (epoch transport : ℕ) (why : TransportFailure)
    → m.state ≡ s
    → Keeps m (Lifecycle.transport_closed m epoch transport why)
unfolding Lifecycle.transport_closed
closed-Keeps m (active mode c) epoch transport why same = ground (arith, same)
closed-Keeps m _ epoch transport why same = ground (arith, same)
