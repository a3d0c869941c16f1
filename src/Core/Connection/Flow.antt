-- ===== src/Core/Connection/Flow.antt =====
-- Calls on an active epoch, up to the write: flow.rs of crates/kafka-driver-core/src/connection.
use kafka_driver.Base.{
  ◌||◌, ◌&&◌, Option, none, some, [], ◌∷◌, leb, ◌==◌, ◌!=◌, if◌then◌else◌, length, any, not,
}
use kafka_driver.Core.Identity.{
  CallId, EffectId, TimerId, TransportId, ConnectionEpoch, Moment, not_sent,
}
use kafka_driver.Core.Authentication.{CorrelationId}
use kafka_driver.Core.Connection.Pending.{
  new_call, is_full, push, submit_in, remove_awaiting_write, contains_correlation, allocate,
  awaits_write,
}
use kafka_driver.Core.Connection.State.{
  TransportFailure, transport_lost, CallFailure, connection_closed, MachineError, ActiveMode,
  ActiveConnection, StateData, active, closing, closed, cancel_deadline, fail_call,
  schedule_deadline, write_request, Decision, applies, rejects, stale, ConnectionMachine,
  IdentityKind,
}
use kafka_driver.Core.Connection.Close.{begin_active_close, close_if_drained, decide}

abbrev pub reject : CallId → CallFailure → Decision
reject c why = rejects (fail_call c why not_sent ∷ [])

pub data Submitted : Type 0 where
  decided : ConnectionMachine → Decision → Submitted
  invalid : MachineError → Submitted

-- The guards have passed: a correlation is reserved and the call joins the queue.
unfoldable pub admit_call :
    ConnectionMachine
    → ActiveConnection
    → CallId
    → EffectId
    → TimerId
    → Moment
    → CorrelationId × Option CorrelationId
    → Submitted
admit_call m c call effect timer deadline (next, none) =
    decided (record m { state = active ActiveMode.ready (record c { next_correlation = next }) })
      (reject call CallFailure.correlation_space_exhausted)
admit_call m c call effect timer deadline (next, some k) =
    decided
      (record m {
        state = active ActiveMode.ready (record c {
          next_correlation = next;
          pending = push c.pending (new_call call k effect timer deadline);
        });
      })
      (applies (
        schedule_deadline c.epoch call timer deadline
        ∷ write_request c.epoch c.transport_id call k effect
        ∷ []))

unfoldable pub submit_ready :
    ConnectionMachine → ActiveConnection → CallId → EffectId → TimerId → Moment → Moment → Submitted
unfolding admit_call
submit_ready m c call effect timer now deadline =
    let calls = c.pending.calls in
    if leb deadline now
    then decided m (reject call CallFailure.out_of_time)
    else if is_full c.pending
    then decided m (reject call (CallFailure.capacity_reached m.limits.in_flight))
    else if any (λ p. p.call_id == call) calls
    then invalid (MachineError.identity_in_use IdentityKind.call)
    else if any (λ p. p.write_effect == effect) calls
    then invalid (MachineError.identity_in_use IdentityKind.write_effect)
    else if any (λ p. p.deadline_timer == timer) calls
    then invalid (MachineError.identity_in_use IdentityKind.deadline_timer)
    else admit_call m c call effect timer deadline
        (allocate c.next_correlation (length calls) (contains_correlation calls))

abbrev pub failure_for_closed_state : StateData → CallFailure
failure_for_closed_state (active ActiveMode.draining c) = CallFailure.is_draining
failure_for_closed_state (closing e t r) = connection_closed r
failure_for_closed_state (closed e r) = connection_closed r
failure_for_closed_state _ = CallFailure.not_ready

unfoldable pub submit :
    ConnectionMachine → CallId → EffectId → TimerId → Moment → Moment → Submitted
unfolding submit_ready
submit m call effect timer now deadline = elim m.state [
  | active ActiveMode.ready c ↦ submit_ready m c call effect timer now deadline
  | _ ↦ decided m (reject call (failure_for_closed_state m.state))
]

unfoldable pub write_submitted :
    ConnectionMachine → ConnectionEpoch → TransportId → EffectId → ConnectionMachine × Decision
write_submitted m epoch transport effect = elim m.state [
  | active mode c ↦
      if epoch != c.epoch || transport != c.transport_id
      then (m, stale)
      else elim (submit_in effect c.pending.calls) [
        | none ↦ (m, stale)
        | some calls ↦ (
          record m {
            state = active mode (record c { pending = record (c.pending) { calls = calls } });
          },
          applies [],
        )
      ]
  | _ ↦ (m, stale)
]

unfoldable pub abort_unsent_call :
    ConnectionMachine
    → ConnectionEpoch
    → TransportId
    → CallId
    → EffectId
    → ConnectionMachine × Decision
unfolding close_if_drained
abort_unsent_call m epoch transport call effect = elim m.state [
  | active mode c ↦
      if epoch != c.epoch || transport != c.transport_id
      then (m, stale)
      else elim (remove_awaiting_write call effect c.pending.calls) [
        | none ↦ (m, stale)
        | some (aborted, calls) ↦
            close_if_drained m mode (record c { pending = record (c.pending) { calls = calls } })
              (cancel_deadline aborted.deadline_timer
                ∷ fail_call call CallFailure.locally_rejected not_sent
                ∷ [])
      ]
  | _ ↦ (m, stale)
]

unfoldable pub write_failed :
    ConnectionMachine
    → ConnectionEpoch
    → TransportId
    → EffectId
    → TransportFailure
    → ConnectionMachine × Decision
unfolding begin_active_close
write_failed m epoch transport effect why = elim m.state [
  | active mode c ↦
      if epoch != c.epoch
        || transport != c.transport_id
        || not (any (λ p. p.write_effect == effect && awaits_write p) c.pending.calls)
      then (m, stale)
      else decide applies (begin_active_close m (transport_lost why) none)
  | _ ↦ (m, stale)
]
