-- ===== src/Core/Connection/Accounting.antt =====
-- The answers to the calls of a connection epoch: every input, through the dispatch of
-- machine.rs.
mod Balance
mod Setup
mod Calls
pub use Balance.*
use kafka_driver.Core.Connection.Authenticating.{authentication_input}
use kafka_driver.Base.{
  ℕ, Bool, true, false, ◌||◌, ◌&&◌, Option, none, some, List, [], ◌∷◌, ◌++◌, ltb, leb, ◌==◌, ◌!=◌,
  if◌then◌else◌, length, any, find?, not, ◌+◌, ◌≤◌, ◌<◌, ◌≡◌, refl, arith, Option-cases, inl, inr,
  ap,
}
use kafka_driver.Base.{Bool, List, ℕ, ◌∷◌, [], ◌≡◌, ◌++◌, true, ◌+◌, arith, some, false, refl}
use kafka_driver.Core.Connection
use kafka_driver.Core.Connection.{dispatch, List, ℕ, write_submitted}
use kafka_driver.Core.Connection.State.{
  ConnectionMachine, ConnectionInput, ConnectionEffect, StateData, Decision, complete_response,
  fail_call, submit, active, start, transport_opened, transport_open_failed,
  api_versions_negotiated, api_versions_negotiated_with_authentication, api_versions_failed,
  authentication, write_submitted, abort_unsent_call, write_failed, response_received,
  response_rejected, deadline_elapsed, begin_drain, transport_closed, negotiating, authenticating,
  ActiveMode, ActiveConnection, transport_lost, unexpected_response, malformed_response,
  correlation_mismatch, mismatched, deadline_exceeded, CallFailure, closed, CloseReason,
  TransportFailure, ResponseFault, NegotiationAttempt,
}
use kafka_driver.Core.Connection.Pending.{
  PendingCall, remove_awaiting_write, submit_in, mark_submitted, by_timer, new_call, allocate,
  contains_correlation,
}
use kafka_driver.Core.Connection.Close.{Specific, failures}
use kafka_driver.Core.Connection.Flow
use kafka_driver.Core.Connection.Response
use kafka_driver.Core.Connection.Opening
use kafka_driver.Core.Connection.Lifecycle
use kafka_driver.Core.Connection.Flow.{Submitted, decided, invalid}
use kafka_driver.Core.Capability.{NegotiatedCapabilities}
use kafka_driver.Core.Authentication
use kafka_driver.Core.Authentication.{
  AuthenticationInput, AuthenticationEffect, AuthenticationMachine, AuthenticationAttempt,
  AuthenticationPolicy,
}
use kafka_driver.Core.Session
use kafka_driver.Core.Session.{sasl_setup, SaslSetup, usable, unusable, NegotiationFailure}
use kafka_driver.Core.Identity.{CallId, EffectId}
use kafka_driver.Core.Connection.Accounting.Setup.{
  answers-wrap_effects, settle-Balanced, authentication-Balanced, start-Balanced, opened-Balanced,
  open_failed-Balanced, negotiated-Balanced, versions_failed-Balanced, enter-Balanced,
  setup-Balanced, begin_authentication-Balanced,
}
use kafka_driver.Core.Connection.Accounting.Calls.{
  write_submitted-Balanced, abort-Balanced, write_failed-Balanced, rejected-Balanced,
  respond-Balanced, received-Balanced, elapsed-Balanced, drain-Balanced, closed-Balanced,
}

admit_call-Balanced :
    (call : CallId) (m : ConnectionMachine) (c : ActiveConnection) (id f t at : ℕ)
    (found : ℕ × Option ℕ)
    → SubmittedBalanced call
        (active ActiveMode.ready c)
        (one_if (id == call))
        (Flow.admit_call m c id f t at found)
unfolding Flow.admit_call
admit_call-Balanced call m c id f t at (next, none) = ground arith
admit_call-Balanced call m c id f t at (next, some k) =
    ground (arith, waiting-append call c.pending.calls (new_call id k f t at ∷ []))

submit-Balanced :
    (call : CallId) (m : ConnectionMachine) (s : StateData) (id f t now at : ℕ)
    → m.state ≡ s
    → SubmittedBalanced call s (one_if (id == call)) (Flow.submit m id f t now at)
unfolding Flow.submit
submit-Balanced call m (active ActiveMode.ready c) id f t now at same =
    let calls = c.pending.calls in
    let admitted =
      admit_call-Balanced call m c id f t at
        (allocate c.next_correlation (length calls) (contains_correlation calls)) in
    ground (arith, same, admitted)
submit-Balanced call m _ id f t now at same = ground (arith, same)

-- One step, whatever the input: the calls that wait afterwards and the answers given are the calls
-- that waited before and the call that came in.
pub dispatch-Balanced :
    (call : CallId) (m : ConnectionMachine) (i : ConnectionInput)
    → SubmittedBalanced call m.state (submits call i) (dispatch m i)
unfolding dispatch
dispatch-Balanced call m (start f t d at) = start-Balanced call m f t d at
dispatch-Balanced call m (transport_opened e f t n) = opened-Balanced call m e f t n
dispatch-Balanced call m (transport_open_failed e f t why) = open_failed-Balanced call m e f t why
dispatch-Balanced call m (api_versions_negotiated e t f c) = negotiated-Balanced call m e t f c
dispatch-Balanced call m (api_versions_negotiated_with_authentication e t f c a) =
    begin_authentication-Balanced call m m.state e t f c a refl
dispatch-Balanced call m (api_versions_failed e t f why) = versions_failed-Balanced call m e t f why
dispatch-Balanced call m (authentication i) = authentication-Balanced call m m.state i refl
dispatch-Balanced call m (submit c f t now at) = submit-Balanced call m m.state c f t now at refl
dispatch-Balanced call m (write_submitted e t f) = write_submitted-Balanced call m e t f
dispatch-Balanced call m (abort_unsent_call e t c f) = abort-Balanced call m e t c f
dispatch-Balanced call m (write_failed e t f why) = write_failed-Balanced call m e t f why
dispatch-Balanced call m (response_received e t k) = received-Balanced call m m.state e t k refl
dispatch-Balanced call m (response_rejected e t why) = rejected-Balanced call m e t why
dispatch-Balanced call m (deadline_elapsed e t now) = elapsed-Balanced call m e t now
dispatch-Balanced call m begin_drain = drain-Balanced call m
dispatch-Balanced call m (transport_closed e t why) = closed-Balanced call m m.state e t why refl
