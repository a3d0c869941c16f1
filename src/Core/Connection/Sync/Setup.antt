-- ===== src/Core/Connection/Sync/Setup.antt =====
-- A connection epoch beside its session: the steps up to a usable
-- connection, in opening.rs, negotiation.rs and authentication.rs.
use kafka_driver.Core.Connection.Authenticating
use kafka_driver.Core.Connection.Authenticating.{authentication_input}
use kafka_driver.Base.{
  ℕ, true, Option, none, some, leb, ◌≤◌, ◌≡◌, refl, arith, subst, leb, ◌≤◌, ◌⊎◌, inl, inr, ◌∙◌, inl,
  inr, ap,
}
use kafka_driver.Base.{ℕ, ◌≡◌, true, arith, some, refl}
use kafka_driver.Core.Connection.{ℕ, phase}
use kafka_driver.Core.Connection.State.{
  phase, ConnectionPhase, ConnectionMachine, StateData, negotiating, authenticating,
  TransportFailure, NegotiationAttempt, ConnectionPhase,
}
use kafka_driver.Core.Connection.Opening
use kafka_driver.Core.Capability.{count, NegotiatedCapabilities}
use kafka_driver.Core.Authentication
use kafka_driver.Core.Authentication.{
  AuthenticationInput, AuthenticationEffect, AuthenticationMachine, AuthenticationAttempt,
  AuthenticationPolicy,
}
use kafka_driver.Core.Session
use kafka_driver.Core.Session.{sasl_setup, SaslSetup, usable, unusable, NegotiationFailure}
use kafka_driver.Core.Connection.Sync.Agreement.{Agrees, InSync, Follows}

pub session_config :
    (s : Session.SessionMachine) (i : Session.SessionInput)
    → ((Session.apply s i).0.max_capabilities ≡ s.max_capabilities)
      × ((Session.apply s i).0.authentication ≡ s.authentication)
unfolding Session.apply
session_config s i = ground arith

pub authentication-Follows :
    (m : ConnectionMachine) (s : StateData) (i : AuthenticationInput)
    → m.state ≡ s
    → Follows m (Authenticating.authentication_input m i)
unfolding Authenticating.authentication_input Authenticating.settle_authentication
    Authenticating.forward Authentication.apply Session.apply
authentication-Follows m (authenticating e t c child) (Authentication.start a) same =
    ground (arith, same)
authentication-Follows m (authenticating e t c child) (Authentication.handshake_accepted e' t' f)
      same =
    ground (arith, same)
authentication-Follows m (authenticating e t c child) (Authentication.handshake_failed e' t' f why)
      same =
    ground (arith, same)
authentication-Follows m (authenticating e t c child)
      (Authentication.exchange_completed e' t' f r o) same =
    ground (arith, same)
authentication-Follows m (authenticating e t c child) (Authentication.deadline_elapsed e' t' now)
      same =
    ground (arith, same)
authentication-Follows m _ i same = ground (arith, same)

pub start-Follows :
    (m : ConnectionMachine) (f t timer at : ℕ) → Follows m (Opening.start m f t timer at)
unfolding Opening.start
start-Follows m f t timer at = ground arith

pub opened-Follows :
    (m : ConnectionMachine) (e f t : ℕ) (a : NegotiationAttempt)
    → Follows m (Opening.transport_opened m e f t a)
unfolding Opening.transport_opened Session.apply
opened-Follows m e f t a = ground arith

pub open_failed-Follows :
    (m : ConnectionMachine) (e f t : ℕ) (why : TransportFailure)
    → Follows m (Opening.transport_open_failed m e f t why)
unfolding Opening.transport_open_failed
open_failed-Follows m e f t why = ground arith

pub negotiated-Follows :
    (m : ConnectionMachine) (e t f : ℕ) (c : NegotiatedCapabilities)
    → Follows m (Opening.api_versions_negotiated m e t f c)
unfolding Opening.api_versions_negotiated Session.apply
negotiated-Follows m e t f c = ground arith

pub versions_failed-Follows :
    (m : ConnectionMachine) (e t f : ℕ) (why : NegotiationFailure)
    → Follows m (Opening.api_versions_failed m e t f why)
unfolding Opening.api_versions_failed Session.apply
versions_failed-Follows m e t f why = ground arith

-- Where the attempt has time left, the session waits for the handshake of these requests.
abbrev pub Awaits :
    Session.SessionMachine → NegotiatedCapabilities → AuthenticationAttempt → SaslSetup → Type 0
Awaits s c a unusable = Unit
Awaits s c a (usable p) =
    (leb a.deadline a.now ≡ true)
    ⊎ (s.state ≡ Session.authenticating c p (Session.handshaking a.deadline))

pub setup-InSync :
    (m : ConnectionMachine) (e t timer : ℕ) (c : NegotiatedCapabilities) (a : AuthenticationAttempt)
    (policy : Option AuthenticationPolicy) (u : SaslSetup)
    → m.policy ≡ policy
    → phase m.state ≡ ConnectionPhase.negotiating
    → m.session.max_capabilities ≡ m.limits.capabilities
    → m.session.authentication ≡ m.policy
    → Awaits m.session c a u
    → InSync (Authenticating.setup_authentication m e t c timer a policy u).0
unfolding Authenticating.setup_authentication Authentication.apply Authentication.new
setup-InSync m e t timer c a none u is_policy at_phase caps auth waits =
    ground (arith, is_policy, at_phase)
setup-InSync m e t timer c a (some policy) unusable is_policy at_phase caps auth waits =
    ground (arith, is_policy, at_phase)
setup-InSync m e t timer c a (some policy) (usable p) is_policy at_phase caps auth waits =
    ground (arith, is_policy, at_phase)

-- The session's answer to negotiated versions, and what it waits for.
pub session-Awaits :
    (s : Session.SessionMachine) (d : ℕ) (c : NegotiatedCapabilities) (a : AuthenticationAttempt)
    (u : SaslSetup)
    → s.state ≡ Session.negotiating d
    → count c ≤ s.max_capabilities
    → sasl_setup s.authentication c ≡ u
    → Awaits
        (Session.apply s (
          Session.api_versions_succeeded_with_authentication c
            (record { now = a.now; deadline = a.deadline }))).0
        c
        a
        u
unfolding Session.apply
session-Awaits s d c a u at_state fits same = ground (arith, at_state, same)

pub begin_authentication-Follows :
    (m : ConnectionMachine) (s : StateData) (e t f : ℕ) (c : NegotiatedCapabilities)
    (a : AuthenticationAttempt)
    → m.state ≡ s
    → Follows m (Authenticating.begin_authentication m e t f c a)
unfolding Authenticating.begin_authentication Session.apply
begin_authentication-Follows m (negotiating e' t' f' timer d) e t f c a same = λ sync.
    let (caps, auth, at0) = sync in
    let at_state : m.session.state ≡ Session.negotiating d =
      subst (λ s. Agrees m.policy s m.session.state) same at0 in
    let input =
      Session.api_versions_succeeded_with_authentication c
        (record { now = a.now; deadline = a.deadline }) in
    let m1 : ConnectionMachine = record m { session = (Session.apply m.session input).0 } in
    let u = sasl_setup m.policy c in
    let config = session_config m.session input in
    let split : InSync (Authenticating.begin_authentication m e t f c a).0
        ⊎ ((count c ≤ m.limits.capabilities)
            × (Authenticating.begin_authentication m e t f c a
                ≡ Authenticating.setup_authentication m1 e t c timer a m.policy u)) =
      ground (arith, same, at_state, caps, auth, sync) in
    elim split [
      | inl done ↦ done
      | inr (fits, goes_on) ↦ rw goes_on (
          setup-InSync m1 e t timer c a m.policy u refl (ap phase same) (config.0 ∙ caps)
            (config.1 ∙ auth)
            (session-Awaits m.session d c a u at_state (omega (arith, fits, caps))
              (ap (λ p. sasl_setup p c) auth)))
    ]
begin_authentication-Follows m _ e t f c a same = ground (arith, same)
