-- ===== src/Core/Connection/Phases.antt =====
-- The order of the phases of a connection epoch: every input, through the dispatch of
-- machine.rs.
mod Progress
mod Setup
mod Calls
pub use Progress.*
use kafka_driver.Core.Connection.Authenticating.{authentication_input}
use kafka_driver.Base.{
  ℕ, Bool, true, false, ◌||◌, ◌&&◌, Option, none, some, List, [], ◌∷◌, ◌++◌, ltb, leb, ◌==◌, ◌!=◌,
  if◌then◌else◌, length, any, find?, not, ◌+◌, ◌≤◌, ◌<◌, ◌≡◌, refl, arith, ℕ_discrete, sym, ◌∙◌,
  Option-cases, inl, inr, ap,
}
use kafka_driver.Base.{Bool, List, ℕ, ◌∷◌, [], ◌≡◌, ◌++◌, true, ◌+◌, arith, some, false, refl}
use kafka_driver.Core.Connection
use kafka_driver.Core.Connection.{dispatch, List, ℕ, write_submitted, state_epoch, phase}
use kafka_driver.Core.Connection.Accounting.{pending_calls}
use kafka_driver.Core.Connection.State.{
  state_epoch, phase, ConnectionPhase, ConnectionMachine, ConnectionInput, ConnectionEffect,
  StateData, Decision, complete_response, fail_call, submit, active, start, transport_opened,
  transport_open_failed, api_versions_negotiated, api_versions_negotiated_with_authentication,
  api_versions_failed, authentication, write_submitted, abort_unsent_call, write_failed,
  response_received, response_rejected, deadline_elapsed, begin_drain, transport_closed,
  negotiating, authenticating, ActiveMode, ActiveConnection, transport_lost, unexpected_response,
  malformed_response, correlation_mismatch, mismatched, deadline_exceeded, CallFailure, closed,
  CloseReason, TransportFailure, ResponseFault, NegotiationAttempt, ConnectionPhase,
}
use kafka_driver.Core.Connection.Pending.{
  PendingCall, remove_awaiting_write, submit_in, mark_submitted, by_timer, new_call, allocate,
  contains_correlation,
}
use kafka_driver.Core.Connection.Close.{Specific, failures}
use kafka_driver.Core.Connection.Flow
use kafka_driver.Core.Connection.Response
use kafka_driver.Core.Connection.Opening
use kafka_driver.Core.Connection.Lifecycle
use kafka_driver.Core.Connection.Flow.{Submitted, decided, invalid}
use kafka_driver.Core.Capability.{NegotiatedCapabilities}
use kafka_driver.Core.Authentication
use kafka_driver.Core.Authentication.{
  AuthenticationInput, AuthenticationEffect, AuthenticationMachine, AuthenticationAttempt,
  AuthenticationPolicy,
}
use kafka_driver.Core.Session
use kafka_driver.Core.Session.{sasl_setup, SaslSetup, usable, unusable, NegotiationFailure}
use kafka_driver.Core.Identity.{CallId, EffectId}
use kafka_driver.Core.Connection.Phases.Setup.{
  settle-Forward, authentication-Forward, start-Forward, opened-Forward, open_failed-Forward,
  negotiated-Forward, versions_failed-Forward, enter-Forward, setup-Forward,
  begin_authentication-Forward,
}
use kafka_driver.Core.Connection.Phases.Calls.{
  write_submitted-Forward, abort-Forward, write_failed-Forward, rejected-Forward, respond-Forward,
  received-Forward, elapsed-Forward, drain-Forward, closed-Forward,
}

admit_call-Forward :
    (m : ConnectionMachine) (c : ActiveConnection) (id f t at : ℕ) (found : ℕ × Option ℕ)
    → SubmittedForward (active ActiveMode.ready c) (Flow.admit_call m c id f t at found)
unfolding Flow.admit_call
admit_call-Forward m c id f t at (next, none) = ground arith
admit_call-Forward m c id f t at (next, some k) = ground arith

submit-Forward :
    (m : ConnectionMachine) (s : StateData) (id f t now at : ℕ)
    → m.state ≡ s
    → SubmittedForward s (Flow.submit m id f t now at)
unfolding Flow.submit
submit-Forward m (active ActiveMode.ready c) id f t now at same =
    let calls = c.pending.calls in
    let admitted =
      admit_call-Forward m c id f t at
        (allocate c.next_correlation (length calls) (contains_correlation calls)) in
    ground (arith, same, admitted)
submit-Forward m _ id f t now at same = ground (arith, same)

-- One step, whatever the input: it keeps the epoch and the phases never go back.
pub dispatch-Forward :
    (m : ConnectionMachine) (i : ConnectionInput) → SubmittedForward m.state (dispatch m i)
unfolding dispatch
dispatch-Forward m (start f t d at) = start-Forward m f t d at
dispatch-Forward m (transport_opened e f t n) = opened-Forward m e f t n
dispatch-Forward m (transport_open_failed e f t why) = open_failed-Forward m e f t why
dispatch-Forward m (api_versions_negotiated e t f c) = negotiated-Forward m e t f c
dispatch-Forward m (api_versions_negotiated_with_authentication e t f c a) =
    begin_authentication-Forward m m.state e t f c a refl
dispatch-Forward m (api_versions_failed e t f why) = versions_failed-Forward m e t f why
dispatch-Forward m (authentication i) = authentication-Forward m m.state i refl
dispatch-Forward m (submit c f t now at) = submit-Forward m m.state c f t now at refl
dispatch-Forward m (write_submitted e t f) = write_submitted-Forward m e t f
dispatch-Forward m (abort_unsent_call e t c f) = abort-Forward m e t c f
dispatch-Forward m (write_failed e t f why) = write_failed-Forward m e t f why
dispatch-Forward m (response_received e t k) = received-Forward m m.state e t k refl
dispatch-Forward m (response_rejected e t why) = rejected-Forward m e t why
dispatch-Forward m (deadline_elapsed e t now) = elapsed-Forward m e t now
dispatch-Forward m begin_drain = drain-Forward m
dispatch-Forward m (transport_closed e t why) = closed-Forward m m.state e t why refl
