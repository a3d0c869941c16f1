-- ===== src/Core/Connection/Phases/Setup.antt =====
-- The order of the phases of a connection epoch: the steps up to a usable
-- connection, in opening.rs, negotiation.rs and authentication.rs.
use kafka_driver.Core.Connection.Authenticating
use kafka_driver.Core.Connection.Authenticating.{authentication_input}
use kafka_driver.Base.{ℕ, Option, none, some, List, ◌≡◌, arith, ℕ_discrete, sym, ◌∙◌, ap}
use kafka_driver.Base.{List, ℕ, ◌≡◌, arith, some}
use kafka_driver.Core.Connection.{List, ℕ, state_epoch, phase}
use kafka_driver.Core.Connection.State.{
  state_epoch, phase, ConnectionPhase, ConnectionMachine, StateData, negotiating, authenticating,
  TransportFailure, NegotiationAttempt, ConnectionPhase,
}
use kafka_driver.Core.Connection.Opening
use kafka_driver.Core.Capability.{NegotiatedCapabilities}
use kafka_driver.Core.Authentication
use kafka_driver.Core.Authentication.{
  AuthenticationInput, AuthenticationEffect, AuthenticationMachine, AuthenticationAttempt,
  AuthenticationPolicy,
}
use kafka_driver.Core.Session
use kafka_driver.Core.Session.{sasl_setup, SaslSetup, usable, unusable, NegotiationFailure}
use kafka_driver.Core.Connection.Phases.Progress.{Forward}

pub settle-Forward :
    (m : ConnectionMachine) (e t : ℕ) (c : NegotiatedCapabilities) (child : AuthenticationMachine)
    (es : List AuthenticationEffect)
    → Forward (authenticating e t c child) (Authenticating.settle_authentication m e t c child es)
unfolding Authenticating.settle_authentication
settle-Forward m e t c child es = ground arith

pub authentication-Forward :
    (m : ConnectionMachine) (s : StateData) (i : AuthenticationInput)
    → m.state ≡ s
    → Forward s (Authenticating.authentication_input m i)
unfolding Authenticating.authentication_input
authentication-Forward m (authenticating e t c child) i same =
    let (child', transition) = Authentication.apply child i in
    let m1 : ConnectionMachine = record m {
      state = authenticating e t c child';
      session = Authenticating.forward m.session i;
    } in
    ground (arith, same, settle-Forward m1 e t c child' transition.effects)
authentication-Forward m _ i same = ground (arith, same)

pub start-Forward :
    (m : ConnectionMachine) (f t timer at : ℕ) → Forward m.state (Opening.start m f t timer at)
unfolding Opening.start
start-Forward m f t timer at = ground arith

pub opened-Forward :
    (m : ConnectionMachine) (e f t : ℕ) (a : NegotiationAttempt)
    → Forward m.state (Opening.transport_opened m e f t a)
unfolding Opening.transport_opened
opened-Forward m e f t a = ground arith

pub open_failed-Forward :
    (m : ConnectionMachine) (e f t : ℕ) (why : TransportFailure)
    → Forward m.state (Opening.transport_open_failed m e f t why)
unfolding Opening.transport_open_failed
open_failed-Forward m e f t why = ground arith

pub negotiated-Forward :
    (m : ConnectionMachine) (e t f : ℕ) (c : NegotiatedCapabilities)
    → Forward m.state (Opening.api_versions_negotiated m e t f c)
unfolding Opening.api_versions_negotiated
negotiated-Forward m e t f c = ground arith

pub versions_failed-Forward :
    (m : ConnectionMachine) (e t f : ℕ) (why : NegotiationFailure)
    → Forward m.state (Opening.api_versions_failed m e t f why)
unfolding Opening.api_versions_failed
versions_failed-Forward m e t f why = ground arith

pub enter-Forward :
    (m : ConnectionMachine) (e t timer : ℕ) (c : NegotiatedCapabilities)
    (started : AuthenticationMachine × Authentication.Transition)
    → phase m.state ≡ ConnectionPhase.negotiating
    → state_epoch m.state ≡ e
    → Forward m.state (Authenticating.enter_authenticating m e t c timer started)
unfolding Authenticating.enter_authenticating
enter-Forward m e t timer c (child, transition) at_phase at_epoch =
    ground (arith, at_phase, at_epoch)

pub setup-Forward :
    (m : ConnectionMachine) (e t timer : ℕ) (c : NegotiatedCapabilities) (a : AuthenticationAttempt)
    (policy : Option AuthenticationPolicy) (u : SaslSetup)
    → phase m.state ≡ ConnectionPhase.negotiating
    → state_epoch m.state ≡ e
    → Forward m.state (Authenticating.setup_authentication m e t c timer a policy u)
unfolding Authenticating.setup_authentication
setup-Forward m e t timer c a none u at_phase at_epoch = ground (arith, at_phase, at_epoch)
setup-Forward m e t timer c a (some policy) unusable at_phase at_epoch =
    ground (arith, at_phase, at_epoch)
setup-Forward m e t timer c a (some policy) (usable p) at_phase at_epoch =
    enter-Forward m e t timer c
      (Authentication.apply (Authentication.new e t p policy.policy_limits)
        (Authentication.start a))
      at_phase at_epoch

pub begin_authentication-Forward :
    (m : ConnectionMachine) (s : StateData) (e t f : ℕ) (c : NegotiatedCapabilities)
    (a : AuthenticationAttempt)
    → m.state ≡ s
    → Forward s (Authenticating.begin_authentication m e t f c a)
unfolding Authenticating.begin_authentication
begin_authentication-Forward m (negotiating e' t' f' timer d) e t f c a same =
    let (session, transition) = Session.apply m.session (
      Session.api_versions_succeeded_with_authentication c
        (record { now = a.now; deadline = a.deadline })) in
    let m1 : ConnectionMachine = record m { session = session } in
    elim (ℕ_discrete e e') [
      | yes here ↦
          let at_phase : phase m.state ≡ ConnectionPhase.negotiating = ap phase same in
          let at_epoch : state_epoch m.state ≡ e = ap state_epoch same ∙ sym here in
          ground (
            arith,
            same,
            here,
            setup-Forward m1 e t timer c a m.policy (sasl_setup m.policy c) at_phase at_epoch,
          )
      | no elsewhere ↦ ground (arith, same, elsewhere)
    ]
begin_authentication-Forward m _ e t f c a same = ground (arith, same)
