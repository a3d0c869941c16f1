-- ===== src/Core/Connection/Invariant.antt =====
-- The queue of an active connection epoch: every input, through the dispatch of
-- machine.rs.
mod Validity
mod Setup
mod Calls
pub use Validity.*
use kafka_driver.Base.{i32_max}
use kafka_driver.Core.Connection.Queue.{
  QueueIsValid, empty-IsValid, tail-IsValid, submit_in-IsValid, remove-IsValid, push-IsValid,
}
use kafka_driver.Core.Connection.Correlations.{allocate-free, allocate-bounded}
use kafka_driver.Core.Connection.Authenticating.{authentication_input}
use kafka_driver.Base.{
  ℕ, Bool, true, false, ◌||◌, ◌&&◌, Option, none, some, List, [], ◌∷◌, ◌++◌, ltb, leb, ◌==◌, ◌!=◌,
  if◌then◌else◌, length, any, find?, not, ◌+◌, ◌≤◌, ◌<◌, ◌≡◌, refl, any, ◌==◌, ◌⊎◌, ◌<◌, subst,
  arith, ℕ_discrete, sym, ◌∙◌, Option-cases, inl, inr, ap,
}
use kafka_driver.Base.{Bool, List, ℕ, ◌∷◌, [], ◌≡◌, ◌++◌, true, ◌+◌, arith, some, false, refl}
use kafka_driver.Core.Connection
use kafka_driver.Core.Connection.{dispatch, List, ℕ, write_submitted, state_epoch, phase}
use kafka_driver.Core.Connection.Accounting.{pending_calls}
use kafka_driver.Core.Connection.State.{
  state_epoch, phase, ConnectionPhase, ConnectionMachine, ConnectionInput, ConnectionEffect,
  StateData, Decision, complete_response, fail_call, submit, active, start, transport_opened,
  transport_open_failed, api_versions_negotiated, api_versions_negotiated_with_authentication,
  api_versions_failed, authentication, write_submitted, abort_unsent_call, write_failed,
  response_received, response_rejected, deadline_elapsed, begin_drain, transport_closed,
  negotiating, authenticating, ActiveMode, ActiveConnection, transport_lost, unexpected_response,
  malformed_response, correlation_mismatch, mismatched, deadline_exceeded, CallFailure, closed,
  CloseReason, TransportFailure, ResponseFault, NegotiationAttempt, ConnectionPhase,
}
use kafka_driver.Core.Connection.Pending.{
  PendingCall, remove_awaiting_write, submit_in, mark_submitted, by_timer, new_call, allocate,
  contains_correlation,
}
use kafka_driver.Core.Connection.Close.{Specific, failures}
use kafka_driver.Core.Connection.Flow
use kafka_driver.Core.Connection.Response
use kafka_driver.Core.Connection.Opening
use kafka_driver.Core.Connection.Lifecycle
use kafka_driver.Core.Connection.Flow.{Submitted, decided, invalid}
use kafka_driver.Core.Capability.{NegotiatedCapabilities}
use kafka_driver.Core.Authentication
use kafka_driver.Core.Authentication.{
  AuthenticationInput, AuthenticationEffect, AuthenticationMachine, AuthenticationAttempt,
  AuthenticationPolicy,
}
use kafka_driver.Core.Session
use kafka_driver.Core.Session.{sasl_setup, SaslSetup, usable, unusable, NegotiationFailure}
use kafka_driver.Core.Identity.{CallId, EffectId}
use kafka_driver.Core.Connection.Invariant.Setup.{
  settle-Keeps, authentication-Keeps, start-Keeps, opened-Keeps, open_failed-Keeps,
  negotiated-Keeps, versions_failed-Keeps, enter-Keeps, setup-Keeps, begin_authentication-Keeps,
}
use kafka_driver.Core.Connection.Invariant.Calls.{
  queue_of, write_submitted-Keeps, abort-Keeps, write_failed-Keeps, rejected-Keeps, respond-Keeps,
  received-Keeps, elapsed-Keeps, drain-Keeps, closed-Keeps,
}

admit_call-Keeps :
    (m : ConnectionMachine) (c : ActiveConnection) (id f t at : ℕ) (found : ℕ × Option ℕ)
    → m.state ≡ active ActiveMode.ready c
    → (ActiveIsValid m.limits.in_flight c → found.0 ≤ i32_max)
    → ((k : ℕ) → found.1 ≡ some k → contains_correlation c.pending.calls k ≡ false)
    → length c.pending.calls < c.pending.capacity
    → any (λ p. p.call_id == id) c.pending.calls ≡ false
    → any (λ p. p.write_effect == f) c.pending.calls ≡ false
    → any (λ p. p.deadline_timer == t) c.pending.calls ≡ false
    → SubmittedKeeps m (Flow.admit_call m c id f t at found)
unfolding Flow.admit_call
admit_call-Keeps m c id f t at (next, none) same bounded free room no_id no_f no_t = (
  refl,
  λ v.
      let w : ActiveIsValid m.limits.in_flight c = subst (StateIsValid m.limits.in_flight) same v in
      record {
        capacity_is_limit = w.capacity_is_limit;
        queue = w.queue;
        next_is_value = bounded w;
      },
)
admit_call-Keeps m c id f t at (next, some k) same bounded free room no_id no_f no_t = (
  refl,
  λ v.
      let w : ActiveIsValid m.limits.in_flight c = subst (StateIsValid m.limits.in_flight) same v in
      record {
        capacity_is_limit = w.capacity_is_limit;
        queue =
            push-IsValid m.limits.in_flight c.pending.calls id k f t at
              (omega (arith, room, w.capacity_is_limit)) no_id no_f no_t (free k refl) w.queue;
        next_is_value = bounded w;
      },
)

-- What the guards of a submission leave.
abbrev Guarded : ActiveConnection → (id f t : ℕ) → Type 0
Guarded c id f t =
    (length c.pending.calls < c.pending.capacity)
    × (any (λ p. p.call_id == id) c.pending.calls ≡ false)
    × (any (λ p. p.write_effect == f) c.pending.calls ≡ false)
    × (any (λ p. p.deadline_timer == t) c.pending.calls ≡ false)

submit-Keeps :
    (m : ConnectionMachine) (s : StateData) (id f t now at : ℕ)
    → m.state ≡ s
    → SubmittedKeeps m (Flow.submit m id f t now at)
unfolding Flow.submit
submit-Keeps m (active ActiveMode.ready c) id f t now at same =
    let calls = c.pending.calls in
    let found = allocate c.next_correlation (length calls) (contains_correlation calls) in
    let split : SubmittedKeeps m (Flow.submit m id f t now at)
        ⊎ ((Flow.submit m id f t now at ≡ Flow.admit_call m c id f t at found) × Guarded c id f t) =
      ground (arith, same) in
    elim split [
      | inl kept ↦ kept
      | inr (admitted, (room, no_id, no_f, no_t)) ↦ rw admitted (
          admit_call-Keeps m c id f t at found same
            (λ w.
              allocate-bounded c.next_correlation (length calls) (contains_correlation calls)
                w.next_is_value)
            (allocate-free c.next_correlation (length calls) (contains_correlation calls)) room
            no_id no_f no_t)
    ]
submit-Keeps m _ id f t now at same = ground (arith, same)

-- One step, whatever the input, keeps the limits and a valid state valid.
pub dispatch-Keeps : (m : ConnectionMachine) (i : ConnectionInput) → SubmittedKeeps m (dispatch m i)
unfolding dispatch
dispatch-Keeps m (start f t d at) = start-Keeps m f t d at
dispatch-Keeps m (transport_opened e f t n) = opened-Keeps m e f t n
dispatch-Keeps m (transport_open_failed e f t why) = open_failed-Keeps m e f t why
dispatch-Keeps m (api_versions_negotiated e t f c) = negotiated-Keeps m e t f c
dispatch-Keeps m (api_versions_negotiated_with_authentication e t f c a) =
    begin_authentication-Keeps m m.state e t f c a refl
dispatch-Keeps m (api_versions_failed e t f why) = versions_failed-Keeps m e t f why
dispatch-Keeps m (authentication i) = authentication-Keeps m m.state i refl
dispatch-Keeps m (submit c f t now at) = submit-Keeps m m.state c f t now at refl
dispatch-Keeps m (write_submitted e t f) = write_submitted-Keeps m e t f
dispatch-Keeps m (abort_unsent_call e t c f) = abort-Keeps m e t c f
dispatch-Keeps m (write_failed e t f why) = write_failed-Keeps m e t f why
dispatch-Keeps m (response_received e t k) = received-Keeps m m.state e t k refl
dispatch-Keeps m (response_rejected e t why) = rejected-Keeps m e t why
dispatch-Keeps m (deadline_elapsed e t now) = elapsed-Keeps m e t now
dispatch-Keeps m begin_drain = drain-Keeps m
dispatch-Keeps m (transport_closed e t why) = closed-Keeps m m.state e t why refl
