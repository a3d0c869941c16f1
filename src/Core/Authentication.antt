-- ===== src/Core/Authentication.antt =====
-- The SASL child of one connection: crates/kafka-driver-core/src/authentication. It holds no secret:
-- proofs are made outside, and reach it as outcomes.
mod State
pub mod Rounds
unfoldable pub use State.*
use kafka_driver.Base.{
  ℕ, ◌+◌, Bool, true, false, Option, none, some, List, [], ◌∷◌, ltb, leb, ◌==◌, ◌!=◌, if◌then◌else◌,
  checked_add, ◌&&◌, ◌||◌, not,
}
use kafka_driver.Core.Identity.{EffectId, TimerId, TransportId, ConnectionEpoch, Moment}
use kafka_driver.Core.Capability.{ApiKey, ApiVersion}

unfoldable pub new :
    ConnectionEpoch → TransportId → SaslProtocol → AuthenticationLimits → AuthenticationMachine
new epoch transport_id p l = record {
  epoch = epoch;
  transport_id = transport_id;
  sasl = p;
  limits = l;
  state = dormant;
}

abbrev pub handshake_correlation : CorrelationId
handshake_correlation = 1

matches : AuthenticationMachine → ConnectionEpoch → TransportId → EffectId → EffectId → Bool
matches m epoch transport_id effect_id expected =
    epoch == m.epoch && (transport_id == m.transport_id && effect_id == expected)

exchange_effect : AuthenticationMachine → EffectId → AuthenticationRound → AuthenticationEffect
exchange_effect m effect_id round =
    send_exchange m.epoch m.transport_id effect_id round (round + 1) m.sasl.authenticate_version

succeed : AuthenticationMachine → TimerId → AuthenticationMachine × Transition
succeed m timer =
    (record m { state = succeeded }, applies (cancel_deadline timer ∷ reports_success ∷ []))

abbrev cancels : Option TimerId → List AuthenticationEffect → List AuthenticationEffect
cancels none es = es
cancels (some timer) es = cancel_deadline timer ∷ es

fail :
    AuthenticationMachine
    → AuthenticationFailure
    → Option TimerId
    → AuthenticationMachine × Transition
fail m why timer =
    (record m { state = failed why }, applies (cancels timer (reports_failure why ∷ [])))

begin : AuthenticationMachine → AuthenticationAttempt → AuthenticationMachine × Transition
unfolding fail
begin m a = elim m.state [
  | dormant ↦ if leb a.deadline a.now then fail m timeout none else (
    record m { state = handshaking a.effect_id a.deadline_timer a.deadline },
    applies (
        schedule_deadline m.epoch a.deadline_timer a.deadline
        ∷ send_handshake m.epoch m.transport_id a.effect_id handshake_correlation m.sasl.mechanism
            m.sasl.handshake_version
        ∷ []),
  )
  | _ ↦ (m, stale)
]

accept_handshake :
    AuthenticationMachine
    → ConnectionEpoch
    → TransportId
    → EffectId
    → AuthenticationMachine × Transition
unfolding matches exchange_effect
accept_handshake m epoch transport_id effect_id = elim m.state [
  | handshaking expected timer deadline ↦
      if not (matches m epoch transport_id effect_id expected) then (m, stale) else (
        record m { state = exchanging effect_id first_round timer deadline },
        applies (exchange_effect m effect_id first_round ∷ []),
      )
  | _ ↦ (m, stale)
]

fail_handshake :
    AuthenticationMachine
    → ConnectionEpoch
    → TransportId
    → EffectId
    → AuthenticationFailure
    → AuthenticationMachine × Transition
unfolding matches fail
fail_handshake m epoch transport_id effect_id why = elim m.state [
  | handshaking expected timer deadline ↦
      if not (matches m epoch transport_id effect_id expected)
      then (m, stale)
      else fail m why (some timer)
  | _ ↦ (m, stale)
]

-- The outcome of the round that is outstanding.
complete_round :
    AuthenticationMachine
    → EffectId
    → AuthenticationRound
    → TimerId
    → Moment
    → ExchangeOutcome
    → AuthenticationMachine × Transition
unfolding succeed fail exchange_effect next_round
complete_round m effect_id round timer deadline completes = succeed m timer
complete_round m effect_id round timer deadline (fails why) = fail m why (some timer)
complete_round m effect_id round timer deadline continues = elim (next_round round) [
  | none ↦ fail m too_many_rounds (some timer)
  | some next ↦
      if ltb m.limits.max_exchange_rounds next then fail m too_many_rounds (some timer) else (
        record m { state = exchanging effect_id next timer deadline },
        applies (exchange_effect m effect_id next ∷ []),
      )
]

complete_exchange :
    AuthenticationMachine
    → ConnectionEpoch
    → TransportId
    → EffectId
    → AuthenticationRound
    → ExchangeOutcome
    → AuthenticationMachine × Transition
unfolding matches complete_round
complete_exchange m epoch transport_id effect_id round outcome = elim m.state [
  | exchanging expected expected_round timer deadline ↦
      if not (matches m epoch transport_id effect_id expected) || round != expected_round
      then (m, stale)
      else complete_round m effect_id round timer deadline outcome
  | _ ↦ (m, stale)
]

active_deadline : AuthenticationState → Option (TimerId × Moment)
active_deadline (handshaking e timer deadline) = some (timer, deadline)
active_deadline (exchanging e r timer deadline) = some (timer, deadline)
active_deadline _ = none

elapse_deadline :
    AuthenticationMachine → ConnectionEpoch → TimerId → Moment → AuthenticationMachine × Transition
unfolding active_deadline fail
elapse_deadline m epoch timer now = elim (active_deadline m.state) [
  | none ↦ (m, stale)
  | some (expected, deadline) ↦
      if epoch != m.epoch || timer != expected
      then (m, stale)
      else if ltb now deadline
      then (m, applies (schedule_deadline epoch timer deadline ∷ []))
      else fail m timeout (some timer)
]

unfoldable pub apply :
    AuthenticationMachine → AuthenticationInput → AuthenticationMachine × Transition
unfolding begin accept_handshake fail_handshake complete_exchange elapse_deadline
apply m (start a) = begin m a
apply m (handshake_accepted epoch transport_id effect_id) =
    accept_handshake m epoch transport_id effect_id
apply m (handshake_failed epoch transport_id effect_id why) =
    fail_handshake m epoch transport_id effect_id why
apply m (exchange_completed epoch transport_id effect_id round outcome) =
    complete_exchange m epoch transport_id effect_id round outcome
apply m (deadline_elapsed epoch timer now) = elapse_deadline m epoch timer now

timer_of : AuthenticationState → Option TimerId
timer_of (handshaking e timer deadline) = some timer
timer_of (exchanging e r timer deadline) = some timer
timer_of _ = none

-- `AuthenticationMachine::deadline_timer`.
unfoldable pub owned_timer : AuthenticationMachine → Option TimerId
unfolding timer_of
owned_timer m = timer_of m.state
