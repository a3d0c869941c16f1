-- ===== src/Core/Connection/Closes/Setup.antt =====
-- Requests to close the transport of a connection epoch: the steps up to a usable
-- connection, in opening.rs, negotiation.rs and authentication.rs.
use kafka_driver.Core.Connection.Authenticating
use kafka_driver.Core.Connection.Authenticating.{authentication_input}
use kafka_driver.Base.{ℕ, Option, none, some, List, [], ◌∷◌, ◌≡◌, refl, arith, ap}
use kafka_driver.Base.{List, ℕ, ◌∷◌, [], ◌≡◌, arith, some, refl}
use kafka_driver.Core.Connection.{List, ℕ}
use kafka_driver.Core.Connection.State.{
  phase, ConnectionPhase, ConnectionMachine, StateData, negotiating, authenticating,
  TransportFailure, NegotiationAttempt,
}
use kafka_driver.Core.Connection.Opening
use kafka_driver.Core.Capability.{NegotiatedCapabilities}
use kafka_driver.Core.Authentication
use kafka_driver.Core.Authentication.{
  AuthenticationInput, AuthenticationEffect, AuthenticationMachine, AuthenticationAttempt,
  AuthenticationPolicy,
}
use kafka_driver.Core.Session
use kafka_driver.Core.Session.{sasl_setup, SaslSetup, usable, unusable, NegotiationFailure}
use kafka_driver.Core.Connection.Closes.Once.{ClosesOnce, closes}

pub closes-wrap_effects :
    (es : List AuthenticationEffect) → closes (Authenticating.wrap_effects es) ≡ 0
unfolding Authenticating.wrap_effects
closes-wrap_effects [] = refl
closes-wrap_effects (Authentication.reports_success ∷ es) = closes-wrap_effects es
closes-wrap_effects (Authentication.reports_failure why ∷ es) = closes-wrap_effects es
closes-wrap_effects (Authentication.schedule_deadline e t at ∷ es) = closes-wrap_effects es
closes-wrap_effects (Authentication.send_handshake e t f c k v ∷ es) = closes-wrap_effects es
closes-wrap_effects (Authentication.send_exchange e t f r c v ∷ es) = closes-wrap_effects es
closes-wrap_effects (Authentication.cancel_deadline t ∷ es) = closes-wrap_effects es

pub settle-ClosesOnce :
    (m : ConnectionMachine) (e t : ℕ) (c : NegotiatedCapabilities) (child : AuthenticationMachine)
    (es : List AuthenticationEffect)
    → ClosesOnce
        (authenticating e t c child)
        (Authenticating.settle_authentication m e t c child es)
unfolding Authenticating.settle_authentication
settle-ClosesOnce m e t c child es = ground (arith, closes-wrap_effects es)

pub authentication-ClosesOnce :
    (m : ConnectionMachine) (s : StateData) (i : AuthenticationInput)
    → m.state ≡ s
    → ClosesOnce s (Authenticating.authentication_input m i)
unfolding Authenticating.authentication_input
authentication-ClosesOnce m (authenticating e t c child) i same =
    let (child', transition) = Authentication.apply child i in
    let m1 : ConnectionMachine = record m {
      state = authenticating e t c child';
      session = Authenticating.forward m.session i;
    } in
    ground (arith, same, settle-ClosesOnce m1 e t c child' transition.effects)
authentication-ClosesOnce m _ i same = ground (arith, same)

pub start-ClosesOnce :
    (m : ConnectionMachine) (f t timer at : ℕ) → ClosesOnce m.state (Opening.start m f t timer at)
unfolding Opening.start
start-ClosesOnce m f t timer at = ground arith

pub opened-ClosesOnce :
    (m : ConnectionMachine) (e f t : ℕ) (a : NegotiationAttempt)
    → ClosesOnce m.state (Opening.transport_opened m e f t a)
unfolding Opening.transport_opened
opened-ClosesOnce m e f t a = ground arith

pub open_failed-ClosesOnce :
    (m : ConnectionMachine) (e f t : ℕ) (why : TransportFailure)
    → ClosesOnce m.state (Opening.transport_open_failed m e f t why)
unfolding Opening.transport_open_failed
open_failed-ClosesOnce m e f t why = ground arith

pub negotiated-ClosesOnce :
    (m : ConnectionMachine) (e t f : ℕ) (c : NegotiatedCapabilities)
    → ClosesOnce m.state (Opening.api_versions_negotiated m e t f c)
unfolding Opening.api_versions_negotiated
negotiated-ClosesOnce m e t f c = ground arith

pub versions_failed-ClosesOnce :
    (m : ConnectionMachine) (e t f : ℕ) (why : NegotiationFailure)
    → ClosesOnce m.state (Opening.api_versions_failed m e t f why)
unfolding Opening.api_versions_failed
versions_failed-ClosesOnce m e t f why = ground arith

pub enter-ClosesOnce :
    (m : ConnectionMachine) (e t timer : ℕ) (c : NegotiatedCapabilities)
    (started : AuthenticationMachine × Authentication.Transition)
    → phase m.state ≡ ConnectionPhase.negotiating
    → ClosesOnce m.state (Authenticating.enter_authenticating m e t c timer started)
unfolding Authenticating.enter_authenticating
enter-ClosesOnce m e t timer c (child, transition) idle =
    ground (arith, idle, closes-wrap_effects transition.effects)

pub setup-ClosesOnce :
    (m : ConnectionMachine) (e t timer : ℕ) (c : NegotiatedCapabilities) (a : AuthenticationAttempt)
    (policy : Option AuthenticationPolicy) (u : SaslSetup)
    → phase m.state ≡ ConnectionPhase.negotiating
    → ClosesOnce m.state (Authenticating.setup_authentication m e t c timer a policy u)
unfolding Authenticating.setup_authentication
setup-ClosesOnce m e t timer c a none u idle = ground (arith, idle)
setup-ClosesOnce m e t timer c a (some policy) unusable idle = ground (arith, idle)
setup-ClosesOnce m e t timer c a (some policy) (usable p) idle =
    enter-ClosesOnce m e t timer c
      (Authentication.apply (Authentication.new e t p policy.policy_limits)
        (Authentication.start a))
      idle

pub begin_authentication-ClosesOnce :
    (m : ConnectionMachine) (s : StateData) (e t f : ℕ) (c : NegotiatedCapabilities)
    (a : AuthenticationAttempt)
    → m.state ≡ s
    → ClosesOnce s (Authenticating.begin_authentication m e t f c a)
unfolding Authenticating.begin_authentication
begin_authentication-ClosesOnce m (negotiating e' t' f' timer d) e t f c a same =
    let (session, transition) = Session.apply m.session (
      Session.api_versions_succeeded_with_authentication c
        (record { now = a.now; deadline = a.deadline })) in
    let m1 : ConnectionMachine = record m { session = session } in
    let idle : phase m.state ≡ ConnectionPhase.negotiating = ap phase same in
    ground
      (arith, same, idle, setup-ClosesOnce m1 e t timer c a m.policy (sasl_setup m.policy c) idle)
begin_authentication-ClosesOnce m _ e t f c a same = ground (arith, same)
