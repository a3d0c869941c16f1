-- ===== src/Core/Connection/Quiet/Setup.antt =====
-- Steps that complete no call: the steps up to a usable
-- connection, in opening.rs, negotiation.rs and authentication.rs.
use kafka_driver.Core.Connection.Authenticating
use kafka_driver.Core.Connection.Accounting.{pending_calls}
use kafka_driver.Core.Authentication.{CorrelationId}
use kafka_driver.Core.Connection.Authenticating.{authentication_input}
use kafka_driver.Base.{ℕ, Option, none, some, List, [], ◌∷◌, ◌≡◌, refl, arith, ap}
use kafka_driver.Base.{List, ℕ, ◌∷◌, [], ◌≡◌, arith, some, refl}
use kafka_driver.Core.Connection.{List, ℕ}
use kafka_driver.Core.Connection.State.{
  ConnectionMachine, StateData, negotiating, authenticating, TransportFailure, NegotiationAttempt,
}
use kafka_driver.Core.Connection.Opening
use kafka_driver.Core.Capability.{NegotiatedCapabilities}
use kafka_driver.Core.Authentication
use kafka_driver.Core.Authentication.{
  AuthenticationInput, AuthenticationEffect, AuthenticationMachine, AuthenticationAttempt,
  AuthenticationPolicy,
}
use kafka_driver.Core.Session
use kafka_driver.Core.Session.{sasl_setup, SaslSetup, usable, unusable, NegotiationFailure}
use kafka_driver.Core.Connection.Quiet.Quietness.{completed, Quiet}

pub completed-wrap_effects :
    (es : List AuthenticationEffect) → completed (Authenticating.wrap_effects es) ≡ []
unfolding Authenticating.wrap_effects
completed-wrap_effects [] = refl
completed-wrap_effects (Authentication.reports_success ∷ es) = completed-wrap_effects es
completed-wrap_effects (Authentication.reports_failure why ∷ es) = completed-wrap_effects es
completed-wrap_effects (Authentication.schedule_deadline e t at ∷ es) = completed-wrap_effects es
completed-wrap_effects (Authentication.send_handshake e t f c k v ∷ es) = completed-wrap_effects es
completed-wrap_effects (Authentication.send_exchange e t f r c v ∷ es) = completed-wrap_effects es
completed-wrap_effects (Authentication.cancel_deadline t ∷ es) = completed-wrap_effects es

pub settle-Quiet :
    (m : ConnectionMachine) (e t : ℕ) (c : NegotiatedCapabilities) (child : AuthenticationMachine)
    (es : List AuthenticationEffect)
    → Quiet (authenticating e t c child) (Authenticating.settle_authentication m e t c child es)
unfolding Authenticating.settle_authentication
settle-Quiet m e t c child es = ground (arith, completed-wrap_effects es)

pub authentication-Quiet :
    (m : ConnectionMachine) (s : StateData) (i : AuthenticationInput)
    → m.state ≡ s
    → Quiet s (Authenticating.authentication_input m i)
unfolding Authenticating.authentication_input
authentication-Quiet m (authenticating e t c child) i same =
    let (child', transition) = Authentication.apply child i in
    let m1 : ConnectionMachine = record m {
      state = authenticating e t c child';
      session = Authenticating.forward m.session i;
    } in
    ground (arith, same, settle-Quiet m1 e t c child' transition.effects)
authentication-Quiet m _ i same = ground (arith, same)

pub start-Quiet :
    (m : ConnectionMachine) (f t timer at : ℕ) → Quiet m.state (Opening.start m f t timer at)
unfolding Opening.start
start-Quiet m f t timer at = ground arith

pub opened-Quiet :
    (m : ConnectionMachine) (e f t : ℕ) (a : NegotiationAttempt)
    → Quiet m.state (Opening.transport_opened m e f t a)
unfolding Opening.transport_opened
opened-Quiet m e f t a = ground arith

pub open_failed-Quiet :
    (m : ConnectionMachine) (e f t : ℕ) (why : TransportFailure)
    → Quiet m.state (Opening.transport_open_failed m e f t why)
unfolding Opening.transport_open_failed
open_failed-Quiet m e f t why = ground arith

pub negotiated-Quiet :
    (m : ConnectionMachine) (e t f : ℕ) (c : NegotiatedCapabilities)
    → Quiet m.state (Opening.api_versions_negotiated m e t f c)
unfolding Opening.api_versions_negotiated
negotiated-Quiet m e t f c = ground arith

pub versions_failed-Quiet :
    (m : ConnectionMachine) (e t f : ℕ) (why : NegotiationFailure)
    → Quiet m.state (Opening.api_versions_failed m e t f why)
unfolding Opening.api_versions_failed
versions_failed-Quiet m e t f why = ground arith

-- No call waits before the epoch is ready.
pub enter-Quiet :
    (m : ConnectionMachine) (e t timer : ℕ) (c : NegotiatedCapabilities)
    (started : AuthenticationMachine × Authentication.Transition)
    → pending_calls m.state ≡ []
    → Quiet m.state (Authenticating.enter_authenticating m e t c timer started)
unfolding Authenticating.enter_authenticating
enter-Quiet m e t timer c (child, transition) idle =
    ground (arith, idle, completed-wrap_effects transition.effects)

pub setup-Quiet :
    (m : ConnectionMachine) (e t timer : ℕ) (c : NegotiatedCapabilities) (a : AuthenticationAttempt)
    (policy : Option AuthenticationPolicy) (u : SaslSetup)
    → pending_calls m.state ≡ []
    → Quiet m.state (Authenticating.setup_authentication m e t c timer a policy u)
unfolding Authenticating.setup_authentication
setup-Quiet m e t timer c a none u idle = ground (arith, idle)
setup-Quiet m e t timer c a (some policy) unusable idle = ground (arith, idle)
setup-Quiet m e t timer c a (some policy) (usable p) idle =
    enter-Quiet m e t timer c
      (Authentication.apply (Authentication.new e t p policy.policy_limits)
        (Authentication.start a))
      idle

pub begin_authentication-Quiet :
    (m : ConnectionMachine) (s : StateData) (e t f : ℕ) (c : NegotiatedCapabilities)
    (a : AuthenticationAttempt)
    → m.state ≡ s
    → Quiet s (Authenticating.begin_authentication m e t f c a)
unfolding Authenticating.begin_authentication
begin_authentication-Quiet m (negotiating e' t' f' timer d) e t f c a same =
    let (session, transition) = Session.apply m.session (
      Session.api_versions_succeeded_with_authentication c
        (record { now = a.now; deadline = a.deadline })) in
    let m1 : ConnectionMachine = record m { session = session } in
    let idle : pending_calls m.state ≡ [] = ap pending_calls same in
    ground (arith, same, idle, setup-Quiet m1 e t timer c a m.policy (sasl_setup m.policy c) idle)
begin_authentication-Quiet m _ e t f c a same = ground (arith, same)
