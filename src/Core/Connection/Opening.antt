-- ===== src/Core/Connection/Opening.antt =====
-- From the open request to a usable connection: opening.rs and negotiation.rs of
-- crates/kafka-driver-core/src/connection.
use kafka_driver.Base.{
  Bool, true, false, ◌||◌, Option, none, some, [], ◌∷◌, ltb, leb, ◌!=◌, if◌then◌else◌,
}
use kafka_driver.Core.Identity.{EffectId, TimerId, TransportId, ConnectionEpoch, Moment}
use kafka_driver.Core.Capability.{NegotiatedCapabilities, count}
use kafka_driver.Core.Authentication
use kafka_driver.Core.Authentication.{
  AuthenticationMachine, AuthenticationFailure, AuthenticationInput, AuthenticationEffect,
  AuthenticationState, AuthenticationAttempt, AuthenticationPolicy,
}
use kafka_driver.Core.Session
use kafka_driver.Core.Session.{
  SessionMachine, SessionInput, NegotiationFailure, SaslSetup, usable, unusable, sasl_setup,
}
use kafka_driver.Core.Connection.Pending.{new_queue}
use kafka_driver.Core.Connection.State.{
  TransportFailure, CloseReason, open_failed, negotiation_failed, authentication_failed,
  ConnectionLimits, ActiveMode, ActiveConnection, dormant, opening, negotiating, active, closing,
  closed, NegotiationAttempt, ConnectionEffect, open_transport, schedule_open_deadline,
  schedule_negotiation_deadline, negotiate_api_versions, cancel_deadline, close_transport, Decision,
  applies, ignores, stale, ConnectionMachine,
}

abbrev pub is_stale : Session.Transition → Bool
is_stale t = elim t.disposition [ Session.ignored_stale ↦ true | _ ↦ false ]

unfoldable pub start :
    ConnectionMachine → EffectId → TransportId → TimerId → Moment → ConnectionMachine × Decision
start m effect transport timer deadline = elim m.state [
  | dormant epoch ↦ (
    record m { state = opening epoch effect transport timer deadline },
    applies
        (schedule_open_deadline epoch timer deadline ∷ open_transport epoch effect transport ∷ []),
  )
  | _ ↦ (m, ignores)
]

begin_negotiation :
    ConnectionMachine
    → ConnectionEpoch
    → TransportId
    → NegotiationAttempt
    → ConnectionMachine × Decision
begin_negotiation m epoch transport a =
    let (session, transition) =
      Session.apply m.session
        (Session.transport_opened (record { now = a.now; deadline = a.deadline })) in
    let reason = negotiation_failed Session.elapsed in
    let m1 = record m { session = session } in
    if is_stale transition
    then (m1, stale)
    else if leb a.deadline a.now
    then (
      record m1 { state = closing epoch transport reason },
      applies (close_transport epoch transport reason ∷ []),
    )
    else (
      record m1 { state = negotiating epoch transport a.effect_id a.attempt_timer a.deadline },
      applies (
          schedule_negotiation_deadline epoch a.attempt_timer a.deadline
          ∷ negotiate_api_versions epoch transport a.effect_id 0
          ∷ []),
    )

-- `effects.insert(0, …)` on the decision of the negotiation.
abbrev prepend : ConnectionEffect → ConnectionMachine × Decision → ConnectionMachine × Decision
prepend e (m, d) = (m, record d { effects = e ∷ d.effects })

unfoldable pub transport_opened :
    ConnectionMachine
    → ConnectionEpoch
    → EffectId
    → TransportId
    → NegotiationAttempt
    → ConnectionMachine × Decision
unfolding begin_negotiation
transport_opened m epoch effect transport a = elim m.state [
  | opening expected expected_effect expected_transport timer deadline ↦
      if epoch != expected || effect != expected_effect || transport != expected_transport
      then (m, stale)
      else prepend (cancel_deadline timer) (begin_negotiation m epoch transport a)
  | _ ↦ (m, stale)
]

unfoldable pub transport_open_failed :
    ConnectionMachine
    → ConnectionEpoch
    → EffectId
    → TransportId
    → TransportFailure
    → ConnectionMachine × Decision
transport_open_failed m epoch effect transport why = elim m.state [
  | opening expected expected_effect expected_transport timer deadline ↦
      if epoch != expected || effect != expected_effect || transport != expected_transport
      then (m, stale)
      else (
        record m { state = closed epoch (open_failed why) },
        applies (cancel_deadline timer ∷ []),
      )
  | _ ↦ (m, stale)
]

-- Closes an epoch that is negotiating, and gives its timer back.
fail_setup : ConnectionMachine → CloseReason → ConnectionMachine × Decision
fail_setup m reason = elim m.state [
  | negotiating epoch transport effect timer deadline ↦ (
    record m { state = closing epoch transport reason },
    applies (close_transport epoch transport reason ∷ cancel_deadline timer ∷ []),
  )
  | _ ↦ (m, stale)
]

unfoldable pub finish_negotiation_failure :
    ConnectionMachine → NegotiationFailure → ConnectionMachine × Decision
unfolding fail_setup
finish_negotiation_failure m why = fail_setup m (negotiation_failed why)

unfoldable pub finish_authentication_setup_failure :
    ConnectionMachine → AuthenticationFailure → ConnectionMachine × Decision
unfolding fail_setup
finish_authentication_setup_failure m why = fail_setup m (authentication_failed why)

abbrev pub new_active :
    ConnectionEpoch → TransportId → NegotiatedCapabilities → ConnectionLimits → ActiveConnection
new_active epoch transport c limits = record {
  epoch = epoch;
  transport_id = transport;
  next_correlation = 0;
  pending = new_queue limits.in_flight;
  negotiated = c;
}

-- The capabilities fit; authentication that is configured may not be skipped.
enter_ready :
    ConnectionMachine
    → ConnectionEpoch
    → TransportId
    → NegotiatedCapabilities
    → TimerId
    → Option AuthenticationPolicy
    → ConnectionMachine × Decision
unfolding finish_authentication_setup_failure
enter_ready m epoch transport c timer (some policy) =
    finish_authentication_setup_failure m Authentication.protocol
enter_ready m epoch transport c timer none = (
  record m { state = active ActiveMode.ready (new_active epoch transport c m.limits) },
  applies (cancel_deadline timer ∷ []),
)

unfoldable pub api_versions_negotiated :
    ConnectionMachine
    → ConnectionEpoch
    → TransportId
    → EffectId
    → NegotiatedCapabilities
    → ConnectionMachine × Decision
unfolding finish_negotiation_failure enter_ready
api_versions_negotiated m epoch transport effect c = elim m.state [
  | negotiating expected expected_transport expected_effect timer deadline ↦
      let (session, transition) = Session.apply m.session (Session.api_versions_succeeded c) in
      let m1 = record m { session = session } in
      if epoch != expected || transport != expected_transport || effect != expected_effect
      then (m, stale)
      else if is_stale transition
      then (m1, stale)
      else if ltb m.limits.capabilities (count c)
      then finish_negotiation_failure m1 Session.capacity
      else enter_ready m1 epoch transport c timer m.policy
  | _ ↦ (m, stale)
]

unfoldable pub api_versions_failed :
    ConnectionMachine
    → ConnectionEpoch
    → TransportId
    → EffectId
    → NegotiationFailure
    → ConnectionMachine × Decision
unfolding finish_negotiation_failure
api_versions_failed m epoch transport effect why = elim m.state [
  | negotiating expected expected_transport expected_effect timer deadline ↦
      let (session, transition) = Session.apply m.session (Session.api_versions_failed why) in
      let m1 = record m { session = session } in
      if epoch != expected || transport != expected_transport || effect != expected_effect
      then (m, stale)
      else if is_stale transition
      then (m1, stale)
      else finish_negotiation_failure m1 why
  | _ ↦ (m, stale)
]
