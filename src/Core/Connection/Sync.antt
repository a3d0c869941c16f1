-- ===== src/Core/Connection/Sync.antt =====
-- A connection epoch beside its session: every input, through the dispatch of
-- machine.rs.
mod Agreement
mod Setup
mod Calls
pub use Agreement.*
use kafka_driver.Core.Connection.Authenticating.{authentication_input}
use kafka_driver.Base.{
  ℕ, Bool, true, false, ◌||◌, ◌&&◌, Option, none, some, List, [], ◌∷◌, ◌++◌, ltb, leb, ◌==◌, ◌!=◌,
  if◌then◌else◌, length, any, find?, not, ◌+◌, ◌≤◌, ◌<◌, ◌≡◌, refl, arith, subst, leb, ltb, ◌≤◌,
  ◌⊎◌, inl, inr, ℕ_discrete, sym, ◌∙◌, Option-cases, inl, inr, ap,
}
use kafka_driver.Base.{Bool, List, ℕ, ◌∷◌, [], ◌≡◌, ◌++◌, true, ◌+◌, arith, some, false, refl}
use kafka_driver.Core.Connection
use kafka_driver.Core.Connection.{dispatch, List, ℕ, write_submitted, state_epoch, phase}
use kafka_driver.Core.Connection.Accounting.{pending_calls}
use kafka_driver.Core.Connection.State.{
  dormant, opening, closing, closed, state_epoch, phase, ConnectionPhase, ConnectionMachine,
  ConnectionInput, ConnectionEffect, StateData, Decision, complete_response, fail_call, submit,
  active, start, transport_opened, transport_open_failed, api_versions_negotiated,
  api_versions_negotiated_with_authentication, api_versions_failed, authentication, write_submitted,
  abort_unsent_call, write_failed, response_received, response_rejected, deadline_elapsed,
  begin_drain, transport_closed, negotiating, authenticating, ActiveMode, ActiveConnection,
  transport_lost, unexpected_response, malformed_response, correlation_mismatch, mismatched,
  deadline_exceeded, CallFailure, closed, CloseReason, TransportFailure, ResponseFault,
  NegotiationAttempt, ConnectionPhase, opening, closing,
}
use kafka_driver.Core.Connection.Pending.{
  PendingCall, remove_awaiting_write, submit_in, mark_submitted, by_timer, new_call, allocate,
  contains_correlation,
}
use kafka_driver.Core.Connection.Close.{Specific, failures}
use kafka_driver.Core.Connection.Flow
use kafka_driver.Core.Connection.Response
use kafka_driver.Core.Connection.Opening
use kafka_driver.Core.Connection.Lifecycle
use kafka_driver.Core.Connection.Flow.{Submitted, decided, invalid}
use kafka_driver.Core.Capability.{count, NegotiatedCapabilities}
use kafka_driver.Core.Authentication
use kafka_driver.Core.Authentication.{
  AuthenticationInput, AuthenticationEffect, AuthenticationMachine, AuthenticationAttempt,
  AuthenticationPolicy,
}
use kafka_driver.Core.Session
use kafka_driver.Core.Session.{sasl_setup, SaslSetup, usable, unusable, NegotiationFailure}
use kafka_driver.Core.Identity.{CallId, EffectId}
use kafka_driver.Core.Connection.Sync.Setup.{
  session_config, authentication-Follows, start-Follows, opened-Follows, open_failed-Follows,
  negotiated-Follows, versions_failed-Follows, Awaits, setup-InSync, session-Awaits,
  begin_authentication-Follows,
}
use kafka_driver.Core.Connection.Sync.Calls.{
  write_submitted-Follows, abort-Follows, write_failed-Follows, rejected-Follows, respond-Follows,
  received-Follows, elapsed-Follows, drain-Follows, closed-Follows,
}

admit_call-Follows :
    (m : ConnectionMachine) (c : ActiveConnection) (id f t at : ℕ) (found : ℕ × Option ℕ)
    → m.state ≡ active ActiveMode.ready c
    → SubmittedFollows m (Flow.admit_call m c id f t at found)
unfolding Flow.admit_call
admit_call-Follows m c id f t at (next, none) same = ground (arith, same)
admit_call-Follows m c id f t at (next, some k) same = ground (arith, same)

submit-Follows :
    (m : ConnectionMachine) (s : StateData) (id f t now at : ℕ)
    → m.state ≡ s
    → SubmittedFollows m (Flow.submit m id f t now at)
unfolding Flow.submit
submit-Follows m (active ActiveMode.ready c) id f t now at same =
    let calls = c.pending.calls in
    let admitted =
      admit_call-Follows m c id f t at
        (allocate c.next_correlation (length calls) (contains_correlation calls)) same in
    ground (arith, same, admitted)
submit-Follows m _ id f t now at same = ground (arith, same)

-- One step, whatever the input: the connection and its session stay in step.
pub dispatch-Follows :
    (m : ConnectionMachine) (i : ConnectionInput) → SubmittedFollows m (dispatch m i)
unfolding dispatch
dispatch-Follows m (start f t d at) = start-Follows m f t d at
dispatch-Follows m (transport_opened e f t n) = opened-Follows m e f t n
dispatch-Follows m (transport_open_failed e f t why) = open_failed-Follows m e f t why
dispatch-Follows m (api_versions_negotiated e t f c) = negotiated-Follows m e t f c
dispatch-Follows m (api_versions_negotiated_with_authentication e t f c a) =
    begin_authentication-Follows m m.state e t f c a refl
dispatch-Follows m (api_versions_failed e t f why) = versions_failed-Follows m e t f why
dispatch-Follows m (authentication i) = authentication-Follows m m.state i refl
dispatch-Follows m (submit c f t now at) = submit-Follows m m.state c f t now at refl
dispatch-Follows m (write_submitted e t f) = write_submitted-Follows m e t f
dispatch-Follows m (abort_unsent_call e t c f) = abort-Follows m e t c f
dispatch-Follows m (write_failed e t f why) = write_failed-Follows m e t f why
dispatch-Follows m (response_received e t k) = received-Follows m m.state e t k refl
dispatch-Follows m (response_rejected e t why) = rejected-Follows m e t why
dispatch-Follows m (deadline_elapsed e t now) = elapsed-Follows m e t now
dispatch-Follows m begin_drain = drain-Follows m
dispatch-Follows m (transport_closed e t why) = closed-Follows m m.state e t why refl
