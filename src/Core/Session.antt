-- ===== src/Core/Session.antt =====
-- The transport-independent session of one connection epoch: API negotiation, then SASL where the
-- configuration asks for it: crates/kafka-driver-core/src/connection/session.
mod State
pub mod Terminal
unfoldable pub use State.*
use kafka_driver.Base.{
  ℕ, Bool, true, false, Option, none, some, List, [], ◌∷◌, ltb, leb, ◌==◌, ◌!=◌, if◌then◌else◌,
}
use kafka_driver.Core.Identity.{Moment}
use kafka_driver.Core.Capability.{ApiVersion, NegotiatedCapabilities, version, count}
use kafka_driver.Core.Authentication.{
  AuthenticationFailure, protocol, timeout, too_many_rounds, SaslMechanism, SaslProtocol,
  AuthenticationPolicy, AuthenticationRound, first_round, next_round, ExchangeOutcome, continues,
  completes, fails,
}

abbrev cancels : Bool → List SessionEffect
cancels true = cancel_deadline ∷ []
cancels false = []

-- `close`: the last argument tells a fault.
close : SessionMachine → CloseReason → Bool → Bool → SessionMachine × Transition
close m reason cancel is_fault = (
  record m { state = closing reason },
  record {
    effects = close_session reason ∷ cancels cancel;
    disposition = if is_fault then fault else applied;
  },
)

close_negotiation : SessionMachine → NegotiationFailure → Bool → SessionMachine × Transition
unfolding close
close_negotiation m why cancel = close m (negotiation_failed why) cancel false

close_authentication : SessionMachine → AuthenticationFailure → Bool → SessionMachine × Transition
unfolding close
close_authentication m why cancel = close m (authentication_failed why) cancel false

open_transport : SessionMachine → SessionDeadline → SessionMachine × Transition
unfolding close_negotiation
open_transport m a = elim m.state [
  | awaiting_transport ↦ if leb a.deadline a.now then close_negotiation m elapsed false else (
    record m { state = negotiating a.deadline },
    applies (start_api_versions a.deadline ∷ []),
  )
  | _ ↦ (m, stale)
]

becomes_ready : SessionMachine → NegotiatedCapabilities → SessionMachine × Transition
becomes_ready m c = (record m { state = ready c }, applies (cancel_deadline ∷ session_ready ∷ []))

-- The capabilities fit; authentication that is configured may not be skipped.
admit_unauthenticated :
    SessionMachine
    → NegotiatedCapabilities
    → Option AuthenticationPolicy
    → SessionMachine × Transition
unfolding close_authentication becomes_ready
admit_unauthenticated m c (some policy) = close_authentication m protocol true
admit_unauthenticated m c none = becomes_ready m c

succeed_versions : SessionMachine → NegotiatedCapabilities → SessionMachine × Transition
unfolding close_negotiation admit_unauthenticated
succeed_versions m c = elim m.state [
  | negotiating deadline ↦
      if ltb m.max_capabilities (count c)
      then close_negotiation m capacity true
      else admit_unauthenticated m c m.authentication
  | _ ↦ (m, stale)
]

-- The versions of the two SASL requests, if a policy is configured and both are usable.
pub data SaslSetup : Type 0 where
  unusable : SaslSetup
  usable : SaslProtocol → SaslSetup

sasl_versions : AuthenticationPolicy → Option ApiVersion → Option ApiVersion → SaslSetup
sasl_versions p none authenticate = unusable
sasl_versions p (some handshake) none = unusable
sasl_versions p (some handshake) (some authenticate) = usable (record {
  mechanism = p.policy_mechanism;
  handshake_version = handshake;
  authenticate_version = authenticate;
})

unfoldable pub sasl_setup : Option AuthenticationPolicy → NegotiatedCapabilities → SaslSetup
unfolding sasl_versions
sasl_setup none c = unusable
sasl_setup (some p) c =
    sasl_versions p (version c p.handshake_api_key) (version c p.authenticate_api_key)

start_handshake :
    SessionMachine
    → NegotiatedCapabilities
    → SessionDeadline
    → SaslSetup
    → SessionMachine × Transition
unfolding close_authentication
start_handshake m c a unusable = close_authentication m protocol true
start_handshake m c a (usable p) =
    if leb a.deadline a.now then close_authentication m timeout true else (
      record m { state = authenticating c p (handshaking a.deadline) },
      applies (
          cancel_deadline
          ∷ start_authentication_handshake p.mechanism p.handshake_version a.deadline
          ∷ []),
    )

succeed_versions_with_authentication :
    SessionMachine → NegotiatedCapabilities → SessionDeadline → SessionMachine × Transition
unfolding close_negotiation start_handshake sasl_setup
succeed_versions_with_authentication m c a = elim m.state [
  | negotiating deadline ↦
      if ltb m.max_capabilities (count c)
      then close_negotiation m capacity true
      else start_handshake m c a (sasl_setup m.authentication c)
  | _ ↦ (m, stale)
]

fail_versions : SessionMachine → NegotiationFailure → SessionMachine × Transition
unfolding close_negotiation
fail_versions m why = elim m.state [
  | negotiating deadline ↦ close_negotiation m why true
  | _ ↦ (m, stale)
]

start_exchange :
    SessionMachine
    → NegotiatedCapabilities
    → SaslProtocol
    → AuthenticationRound
    → Moment
    → SessionMachine × Transition
start_exchange m c p round deadline = (
  record m { state = authenticating c p (exchanging round deadline) },
  applies (start_authentication_exchange round p.authenticate_version deadline ∷ []),
)

succeed_handshake : SessionMachine → SessionMachine × Transition
unfolding start_exchange
succeed_handshake m = elim m.state [
  | authenticating c p (handshaking deadline) ↦ start_exchange m c p first_round deadline
  | _ ↦ (m, stale)
]

fail_authentication : SessionMachine → AuthenticationFailure → SessionMachine × Transition
unfolding close_authentication
fail_authentication m why = elim m.state [
  | authenticating c p stage ↦ close_authentication m why true
  | _ ↦ (m, stale)
]

-- The next round, within the configured bound.
continue_exchange :
    SessionMachine
    → NegotiatedCapabilities
    → SaslProtocol
    → Moment
    → Option AuthenticationRound
    → Option AuthenticationPolicy
    → SessionMachine × Transition
unfolding close_authentication start_exchange
continue_exchange m c p deadline none policy = close_authentication m too_many_rounds true
continue_exchange m c p deadline (some next) none = close_authentication m protocol true
continue_exchange m c p deadline (some next) (some policy) =
    if ltb policy.policy_limits.max_exchange_rounds next
    then close_authentication m too_many_rounds true
    else start_exchange m c p next deadline

finish_round :
    SessionMachine
    → NegotiatedCapabilities
    → SaslProtocol
    → AuthenticationRound
    → Moment
    → ExchangeOutcome
    → SessionMachine × Transition
unfolding becomes_ready close_authentication continue_exchange next_round
finish_round m c p round deadline completes = becomes_ready m c
finish_round m c p round deadline (fails why) = close_authentication m why true
finish_round m c p round deadline continues =
    continue_exchange m c p deadline (next_round round) m.authentication

complete_exchange :
    SessionMachine → AuthenticationRound → ExchangeOutcome → SessionMachine × Transition
unfolding finish_round
complete_exchange m round outcome = elim m.state [
  | authenticating c p (exchanging expected deadline) ↦
      if round != expected then (m, stale) else finish_round m c p round deadline outcome
  | _ ↦ (m, stale)
]

abbrev stage_deadline : AuthenticationStage → Moment
stage_deadline (handshaking deadline) = deadline
stage_deadline (exchanging round deadline) = deadline

elapse_deadline : SessionMachine → Moment → SessionMachine × Transition
unfolding close_negotiation close_authentication
elapse_deadline m now = elim m.state [
  | negotiating deadline ↦
      if ltb now deadline
      then (m, applies (reschedule_deadline deadline ∷ []))
      else close_negotiation m elapsed false
  | authenticating c p stage ↦
      if ltb now (stage_deadline stage)
      then (m, applies (reschedule_deadline (stage_deadline stage) ∷ []))
      else close_authentication m timeout true
  | _ ↦ (m, stale)
]

drain : SessionMachine → SessionMachine × Transition
unfolding close
drain m = elim m.state [
  | awaiting_transport ↦ close m requested false false
  | negotiating deadline ↦ close m requested true false
  | authenticating c p stage ↦ close m requested true false
  | ready c ↦ (record m { state = draining c }, applies (drains ∷ []))
  | _ ↦ (m, ignores)
]

finish_drain : SessionMachine → SessionMachine × Transition
unfolding close
finish_drain m = elim m.state [ draining c ↦ close m drained false false | _ ↦ (m, stale) ]

fail_protocol : SessionMachine → ProtocolFailure → SessionMachine × Transition
unfolding close
fail_protocol m why = elim m.state [
  | closing reason ↦ (m, stale)
  | closed reason ↦ (m, stale)
  | negotiating deadline ↦ close m (protocol_failed why) true true
  | authenticating c p stage ↦ close m (protocol_failed why) true true
  | _ ↦ close m (protocol_failed why) false true
]

lose_transport : SessionMachine → SessionMachine × Transition
lose_transport m = elim m.state [
  | closed reason ↦ (m, ignores)
  | closing reason ↦ (record m { state = closed reason }, applies [])
  | _ ↦ (record m { state = closed transport_closed }, applies [])
]

unfoldable pub apply : SessionMachine → SessionInput → SessionMachine × Transition
unfolding open_transport succeed_versions succeed_versions_with_authentication fail_versions
    succeed_handshake fail_authentication complete_exchange elapse_deadline drain finish_drain
    fail_protocol lose_transport
apply m (transport_opened a) = open_transport m a
apply m (api_versions_succeeded c) = succeed_versions m c
apply m (api_versions_succeeded_with_authentication c a) =
    succeed_versions_with_authentication m c a
apply m (api_versions_failed why) = fail_versions m why
apply m authentication_handshake_succeeded = succeed_handshake m
apply m (authentication_handshake_failed why) = fail_authentication m why
apply m (authentication_exchange_completed round outcome) = complete_exchange m round outcome
apply m (deadline_elapsed now) = elapse_deadline m now
apply m begin_drain = drain m
apply m all_drained = finish_drain m
apply m (protocol_fault why) = fail_protocol m why
apply m transport_gone = lose_transport m
