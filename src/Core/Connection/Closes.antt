-- ===== src/Core/Connection/Closes.antt =====
-- Requests to close the transport of a connection epoch: every input, through the dispatch of
-- machine.rs.
mod Once
mod Setup
mod Calls
pub use Once.*
use kafka_driver.Core.Connection.Authenticating.{authentication_input}
use kafka_driver.Base.{
  ℕ, Bool, true, false, ◌||◌, ◌&&◌, Option, none, some, List, [], ◌∷◌, ◌++◌, ltb, leb, ◌==◌, ◌!=◌,
  if◌then◌else◌, length, any, find?, not, ◌+◌, ◌≤◌, ◌<◌, ◌≡◌, refl, arith, Option-cases, inl, inr,
  ap,
}
use kafka_driver.Base.{Bool, List, ℕ, ◌∷◌, [], ◌≡◌, ◌++◌, true, ◌+◌, arith, some, false, refl}
use kafka_driver.Core.Connection
use kafka_driver.Core.Connection.{dispatch, List, ℕ, write_submitted}
use kafka_driver.Core.Connection.State.{
  ConnectionMachine, ConnectionInput, ConnectionEffect, StateData, Decision, complete_response,
  fail_call, submit, active, start, transport_opened, transport_open_failed,
  api_versions_negotiated, api_versions_negotiated_with_authentication, api_versions_failed,
  authentication, write_submitted, abort_unsent_call, write_failed, response_received,
  response_rejected, deadline_elapsed, begin_drain, transport_closed, negotiating, authenticating,
  ActiveMode, ActiveConnection, transport_lost, unexpected_response, malformed_response,
  correlation_mismatch, mismatched, deadline_exceeded, CallFailure, closed, CloseReason,
  TransportFailure, ResponseFault, NegotiationAttempt,
}
use kafka_driver.Core.Connection.Pending.{
  PendingCall, remove_awaiting_write, submit_in, mark_submitted, by_timer, new_call, allocate,
  contains_correlation,
}
use kafka_driver.Core.Connection.Close.{Specific, failures}
use kafka_driver.Core.Connection.Flow
use kafka_driver.Core.Connection.Response
use kafka_driver.Core.Connection.Opening
use kafka_driver.Core.Connection.Lifecycle
use kafka_driver.Core.Connection.Flow.{Submitted, decided, invalid}
use kafka_driver.Core.Capability.{NegotiatedCapabilities}
use kafka_driver.Core.Authentication
use kafka_driver.Core.Authentication.{
  AuthenticationInput, AuthenticationEffect, AuthenticationMachine, AuthenticationAttempt,
  AuthenticationPolicy,
}
use kafka_driver.Core.Session
use kafka_driver.Core.Session.{sasl_setup, SaslSetup, usable, unusable, NegotiationFailure}
use kafka_driver.Core.Identity.{CallId, EffectId}
use kafka_driver.Core.Connection.Closes.Setup.{
  closes-wrap_effects, settle-ClosesOnce, authentication-ClosesOnce, start-ClosesOnce,
  opened-ClosesOnce, open_failed-ClosesOnce, negotiated-ClosesOnce, versions_failed-ClosesOnce,
  enter-ClosesOnce, setup-ClosesOnce, begin_authentication-ClosesOnce,
}
use kafka_driver.Core.Connection.Closes.Calls.{
  write_submitted-ClosesOnce, abort-ClosesOnce, write_failed-ClosesOnce, rejected-ClosesOnce,
  respond-ClosesOnce, received-ClosesOnce, elapsed-ClosesOnce, drain-ClosesOnce, closed-ClosesOnce,
}

admit_call-ClosesOnce :
    (m : ConnectionMachine) (c : ActiveConnection) (id f t at : ℕ) (found : ℕ × Option ℕ)
    → SubmittedClosesOnce (active ActiveMode.ready c) (Flow.admit_call m c id f t at found)
unfolding Flow.admit_call
admit_call-ClosesOnce m c id f t at (next, none) = ground arith
admit_call-ClosesOnce m c id f t at (next, some k) = ground (arith)

submit-ClosesOnce :
    (m : ConnectionMachine) (s : StateData) (id f t now at : ℕ)
    → m.state ≡ s
    → SubmittedClosesOnce s (Flow.submit m id f t now at)
unfolding Flow.submit
submit-ClosesOnce m (active ActiveMode.ready c) id f t now at same =
    let calls = c.pending.calls in
    let admitted =
      admit_call-ClosesOnce m c id f t at
        (allocate c.next_correlation (length calls) (contains_correlation calls)) in
    ground (arith, same, admitted)
submit-ClosesOnce m _ id f t now at same = ground (arith, same)

-- One step, whatever the input, asks for the close only where it ends the epoch.
pub dispatch-ClosesOnce :
    (m : ConnectionMachine) (i : ConnectionInput) → SubmittedClosesOnce m.state (dispatch m i)
unfolding dispatch
dispatch-ClosesOnce m (start f t d at) = start-ClosesOnce m f t d at
dispatch-ClosesOnce m (transport_opened e f t n) = opened-ClosesOnce m e f t n
dispatch-ClosesOnce m (transport_open_failed e f t why) = open_failed-ClosesOnce m e f t why
dispatch-ClosesOnce m (api_versions_negotiated e t f c) = negotiated-ClosesOnce m e t f c
dispatch-ClosesOnce m (api_versions_negotiated_with_authentication e t f c a) =
    begin_authentication-ClosesOnce m m.state e t f c a refl
dispatch-ClosesOnce m (api_versions_failed e t f why) = versions_failed-ClosesOnce m e t f why
dispatch-ClosesOnce m (authentication i) = authentication-ClosesOnce m m.state i refl
dispatch-ClosesOnce m (submit c f t now at) = submit-ClosesOnce m m.state c f t now at refl
dispatch-ClosesOnce m (write_submitted e t f) = write_submitted-ClosesOnce m e t f
dispatch-ClosesOnce m (abort_unsent_call e t c f) = abort-ClosesOnce m e t c f
dispatch-ClosesOnce m (write_failed e t f why) = write_failed-ClosesOnce m e t f why
dispatch-ClosesOnce m (response_received e t k) = received-ClosesOnce m m.state e t k refl
dispatch-ClosesOnce m (response_rejected e t why) = rejected-ClosesOnce m e t why
dispatch-ClosesOnce m (deadline_elapsed e t now) = elapsed-ClosesOnce m e t now
dispatch-ClosesOnce m begin_drain = drain-ClosesOnce m
dispatch-ClosesOnce m (transport_closed e t why) = closed-ClosesOnce m m.state e t why refl
