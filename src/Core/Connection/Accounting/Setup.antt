-- ===== src/Core/Connection/Accounting/Setup.antt =====
-- The answers to the calls of a connection epoch: the steps up to a usable
-- connection, in opening.rs, negotiation.rs and authentication.rs.
use kafka_driver.Core.Connection.Authenticating
use kafka_driver.Core.Connection.Authenticating.{authentication_input}
use kafka_driver.Base.{ℕ, Option, none, some, List, [], ◌∷◌, ◌≡◌, refl, arith, ap}
use kafka_driver.Base.{List, ℕ, ◌∷◌, [], ◌≡◌, arith, some, refl}
use kafka_driver.Core.Connection.{List, ℕ}
use kafka_driver.Core.Connection.State.{
  ConnectionMachine, StateData, negotiating, authenticating, TransportFailure, NegotiationAttempt,
}
use kafka_driver.Core.Connection.Opening
use kafka_driver.Core.Capability.{NegotiatedCapabilities}
use kafka_driver.Core.Authentication
use kafka_driver.Core.Authentication.{
  AuthenticationInput, AuthenticationEffect, AuthenticationMachine, AuthenticationAttempt,
  AuthenticationPolicy,
}
use kafka_driver.Core.Session
use kafka_driver.Core.Session.{sasl_setup, SaslSetup, usable, unusable, NegotiationFailure}
use kafka_driver.Core.Identity.{CallId}
use kafka_driver.Core.Connection.Accounting.Balance.{answers, pending_calls, Balanced}

pub answers-wrap_effects :
    (call : CallId) (es : List AuthenticationEffect)
    → answers call (Authenticating.wrap_effects es) ≡ 0
unfolding Authenticating.wrap_effects
answers-wrap_effects call [] = refl
answers-wrap_effects call (Authentication.reports_success ∷ es) = answers-wrap_effects call es
answers-wrap_effects call (Authentication.reports_failure why ∷ es) = answers-wrap_effects call es
answers-wrap_effects call (Authentication.schedule_deadline e t at ∷ es) =
    answers-wrap_effects call es
answers-wrap_effects call (Authentication.send_handshake e t f c k v ∷ es) =
    answers-wrap_effects call es
answers-wrap_effects call (Authentication.send_exchange e t f r c v ∷ es) =
    answers-wrap_effects call es
answers-wrap_effects call (Authentication.cancel_deadline t ∷ es) = answers-wrap_effects call es

pub settle-Balanced :
    (call : CallId) (m : ConnectionMachine) (e t : ℕ) (c : NegotiatedCapabilities)
    (child : AuthenticationMachine) (es : List AuthenticationEffect)
    → Balanced call
        (authenticating e t c child)
        0
        (Authenticating.settle_authentication m e t c child es)
unfolding Authenticating.settle_authentication
settle-Balanced call m e t c child es = ground (arith, answers-wrap_effects call es)

pub authentication-Balanced :
    (call : CallId) (m : ConnectionMachine) (s : StateData) (i : AuthenticationInput)
    → m.state ≡ s
    → Balanced call s 0 (Authenticating.authentication_input m i)
unfolding Authenticating.authentication_input
authentication-Balanced call m (authenticating e t c child) i same =
    let (child', transition) = Authentication.apply child i in
    let m1 : ConnectionMachine = record m {
      state = authenticating e t c child';
      session = Authenticating.forward m.session i;
    } in
    ground (arith, same, settle-Balanced call m1 e t c child' transition.effects)
authentication-Balanced call m _ i same = ground (arith, same)

pub start-Balanced :
    (call : CallId) (m : ConnectionMachine) (f t timer at : ℕ)
    → Balanced call m.state 0 (Opening.start m f t timer at)
unfolding Opening.start
start-Balanced call m f t timer at = ground arith

pub opened-Balanced :
    (call : CallId) (m : ConnectionMachine) (e f t : ℕ) (a : NegotiationAttempt)
    → Balanced call m.state 0 (Opening.transport_opened m e f t a)
unfolding Opening.transport_opened
opened-Balanced call m e f t a = ground arith

pub open_failed-Balanced :
    (call : CallId) (m : ConnectionMachine) (e f t : ℕ) (why : TransportFailure)
    → Balanced call m.state 0 (Opening.transport_open_failed m e f t why)
unfolding Opening.transport_open_failed
open_failed-Balanced call m e f t why = ground arith

pub negotiated-Balanced :
    (call : CallId) (m : ConnectionMachine) (e t f : ℕ) (c : NegotiatedCapabilities)
    → Balanced call m.state 0 (Opening.api_versions_negotiated m e t f c)
unfolding Opening.api_versions_negotiated
negotiated-Balanced call m e t f c = ground arith

pub versions_failed-Balanced :
    (call : CallId) (m : ConnectionMachine) (e t f : ℕ) (why : NegotiationFailure)
    → Balanced call m.state 0 (Opening.api_versions_failed m e t f why)
unfolding Opening.api_versions_failed
versions_failed-Balanced call m e t f why = ground arith

-- No call waits before the epoch is ready.
pub enter-Balanced :
    (call : CallId) (m : ConnectionMachine) (e t timer : ℕ) (c : NegotiatedCapabilities)
    (started : AuthenticationMachine × Authentication.Transition)
    → pending_calls m.state ≡ []
    → Balanced call m.state 0 (Authenticating.enter_authenticating m e t c timer started)
unfolding Authenticating.enter_authenticating
enter-Balanced call m e t timer c (child, transition) idle =
    ground (arith, idle, answers-wrap_effects call transition.effects)

pub setup-Balanced :
    (call : CallId) (m : ConnectionMachine) (e t timer : ℕ) (c : NegotiatedCapabilities)
    (a : AuthenticationAttempt) (policy : Option AuthenticationPolicy) (u : SaslSetup)
    → pending_calls m.state ≡ []
    → Balanced call m.state 0 (Authenticating.setup_authentication m e t c timer a policy u)
unfolding Authenticating.setup_authentication
setup-Balanced call m e t timer c a none u idle = ground (arith, idle)
setup-Balanced call m e t timer c a (some policy) unusable idle = ground (arith, idle)
setup-Balanced call m e t timer c a (some policy) (usable p) idle =
    enter-Balanced call m e t timer c
      (Authentication.apply (Authentication.new e t p policy.policy_limits)
        (Authentication.start a))
      idle

pub begin_authentication-Balanced :
    (call : CallId) (m : ConnectionMachine) (s : StateData) (e t f : ℕ) (c : NegotiatedCapabilities)
    (a : AuthenticationAttempt)
    → m.state ≡ s
    → Balanced call s 0 (Authenticating.begin_authentication m e t f c a)
unfolding Authenticating.begin_authentication
begin_authentication-Balanced call m (negotiating e' t' f' timer d) e t f c a same =
    let (session, transition) = Session.apply m.session (
      Session.api_versions_succeeded_with_authentication c
        (record { now = a.now; deadline = a.deadline })) in
    let m1 : ConnectionMachine = record m { session = session } in
    let idle : pending_calls m.state ≡ [] = ap pending_calls same in
    ground (
      arith,
      same,
      idle,
      setup-Balanced call m1 e t timer c a m.policy (sasl_setup m.policy c) idle,
    )
begin_authentication-Balanced call m _ e t f c a same = ground (arith, same)
