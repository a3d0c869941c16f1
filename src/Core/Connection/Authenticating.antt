-- ===== src/Core/Connection/Authenticating.antt =====
-- Authentication of an epoch through its SASL child: authentication.rs of
-- crates/kafka-driver-core/src/connection.
use kafka_driver.Base.{◌||◌, Option, none, some, List, [], ◌∷◌, ltb, ◌!=◌, if◌then◌else◌}
use kafka_driver.Core.Identity.{EffectId, TimerId, TransportId, ConnectionEpoch}
use kafka_driver.Core.Capability.{NegotiatedCapabilities, count}
use kafka_driver.Core.Authentication
use kafka_driver.Core.Authentication.{
  AuthenticationMachine, AuthenticationFailure, AuthenticationInput, AuthenticationEffect,
  AuthenticationState, AuthenticationAttempt, AuthenticationPolicy,
}
use kafka_driver.Core.Session
use kafka_driver.Core.Session.{
  SessionMachine, SessionInput, NegotiationFailure, SaslSetup, usable, unusable, sasl_setup,
}
use kafka_driver.Core.Connection.State.{
  authentication_failed, ActiveMode, negotiating, authenticating, active, closing, ConnectionEffect,
  authenticates, cancel_deadline, close_transport, Decision, applies, stale, ConnectionMachine,
}
use kafka_driver.Core.Connection.Opening.{
  finish_negotiation_failure, finish_authentication_setup_failure, new_active, is_stale,
}

-- The effects of the child, without its two reports.
unfoldable pub wrap_effects : List AuthenticationEffect → List ConnectionEffect
wrap_effects [] = []
wrap_effects (Authentication.reports_success ∷ es) = wrap_effects es
wrap_effects (Authentication.reports_failure why ∷ es) = wrap_effects es
wrap_effects (Authentication.schedule_deadline e t at ∷ es) =
    authenticates (Authentication.schedule_deadline e t at) ∷ wrap_effects es
wrap_effects (Authentication.send_handshake e t f c k v ∷ es) =
    authenticates (Authentication.send_handshake e t f c k v) ∷ wrap_effects es
wrap_effects (Authentication.send_exchange e t f r c v ∷ es) =
    authenticates (Authentication.send_exchange e t f r c v) ∷ wrap_effects es
wrap_effects (Authentication.cancel_deadline t ∷ es) =
    authenticates (Authentication.cancel_deadline t) ∷ wrap_effects es

-- The child has taken its `Start`: an attempt without time left fails at once.
unfoldable pub enter_authenticating :
    ConnectionMachine
    → ConnectionEpoch
    → TransportId
    → NegotiatedCapabilities
    → TimerId
    → AuthenticationMachine × Authentication.Transition
    → ConnectionMachine × Decision
unfolding finish_authentication_setup_failure wrap_effects
enter_authenticating m epoch transport c timer (child, transition) = elim child.state [
  | Authentication.failed why ↦ finish_authentication_setup_failure m why
  | _ ↦ (
    record m { state = authenticating epoch transport c child },
    applies (cancel_deadline timer ∷ wrap_effects transition.effects),
  )
]

unfoldable pub setup_authentication :
    ConnectionMachine
    → ConnectionEpoch
    → TransportId
    → NegotiatedCapabilities
    → TimerId
    → AuthenticationAttempt
    → Option AuthenticationPolicy
    → SaslSetup
    → ConnectionMachine × Decision
unfolding finish_authentication_setup_failure enter_authenticating
setup_authentication m epoch transport c timer a (some policy) (usable p) =
    enter_authenticating m epoch transport c timer (
      Authentication.apply (Authentication.new epoch transport p policy.policy_limits)
        (Authentication.start a))
setup_authentication m epoch transport c timer a none _ =
    finish_authentication_setup_failure m Authentication.protocol
setup_authentication m epoch transport c timer a (some policy) unusable =
    finish_authentication_setup_failure m Authentication.protocol

unfoldable pub begin_authentication :
    ConnectionMachine
    → ConnectionEpoch
    → TransportId
    → EffectId
    → NegotiatedCapabilities
    → AuthenticationAttempt
    → ConnectionMachine × Decision
unfolding finish_negotiation_failure setup_authentication
begin_authentication m epoch transport effect c a = elim m.state [
  | negotiating expected expected_transport expected_effect timer deadline ↦
      let (session, transition) = Session.apply m.session (
        Session.api_versions_succeeded_with_authentication c
          (record { now = a.now; deadline = a.deadline })) in
      let m1 = record m { session = session } in
      if epoch != expected || transport != expected_transport || effect != expected_effect
      then (m, stale)
      else if is_stale transition
      then (m1, stale)
      else if ltb m.limits.capabilities (count c)
      then finish_negotiation_failure m1 Session.capacity
      else setup_authentication m1 epoch transport c timer a m.policy (sasl_setup m.policy c)
  | _ ↦ (m, stale)
]

unfoldable pub session_input : AuthenticationInput → Option SessionInput
session_input (Authentication.start a) = none
session_input (Authentication.handshake_accepted e t f) =
    some Session.authentication_handshake_succeeded
session_input (Authentication.handshake_failed e t f why) =
    some (Session.authentication_handshake_failed why)
session_input (Authentication.exchange_completed e t f r o) =
    some (Session.authentication_exchange_completed r o)
session_input (Authentication.deadline_elapsed e t now) = some (Session.deadline_elapsed now)

unfoldable pub forward : SessionMachine → AuthenticationInput → SessionMachine
unfolding session_input
forward s i = elim (session_input i) [ none ↦ s | some j ↦ (Session.apply s j).0 ]

-- What the state of the child after an input means for the connection.
unfoldable pub settle_authentication :
    ConnectionMachine
    → ConnectionEpoch
    → TransportId
    → NegotiatedCapabilities
    → AuthenticationMachine
    → List AuthenticationEffect
    → ConnectionMachine × Decision
unfolding wrap_effects
settle_authentication m epoch transport c child effects = elim child.state [
  | Authentication.succeeded ↦ (
    record m { state = active ActiveMode.ready (new_active epoch transport c m.limits) },
    applies (wrap_effects effects),
  )
  | Authentication.failed why ↦ (
    record m { state = closing epoch transport (authentication_failed why) },
    applies (close_transport epoch transport (authentication_failed why) ∷ wrap_effects effects),
  )
  | _ ↦
      (record m { state = authenticating epoch transport c child }, applies (wrap_effects effects))
]

unfoldable pub authentication_input :
    ConnectionMachine → AuthenticationInput → ConnectionMachine × Decision
unfolding forward settle_authentication
authentication_input m input = elim m.state [
  | authenticating epoch transport c child ↦
      let (child', transition) = Authentication.apply child input in
      let m1 = record m { state = authenticating epoch transport c child' } in
      elim transition.disposition [
        | Authentication.ignored_stale ↦ (m1, stale)
        | Authentication.applied ↦
            settle_authentication (record m1 { session = forward m.session input }) epoch transport
              c child' transition.effects
      ]
  | _ ↦ (m, stale)
]
