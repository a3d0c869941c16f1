-- ===== src/Core/Authentication/Rounds.antt =====
-- The rounds of a SASL exchange over a run: authentication.
use kafka_driver.Base.{ℕ, ◌+◌, ◌≤◌, List, [], ◌∷◌, ◌++◌, ◌≡◌, refl, arith}
use kafka_driver.Core.Identity.{ConnectionEpoch, TransportId}
use kafka_driver.Core.Authentication.{
  AuthenticationMachine, AuthenticationInput, AuthenticationState, AuthenticationEffect,
  SaslProtocol, AuthenticationLimits, exchanging, dormant, handshaking, succeeded, failed,
  send_exchange, new, apply,
}

-- The machine after a list of inputs, with all effects in order.
abbrev pub run :
    AuthenticationMachine
    → List AuthenticationInput
    → AuthenticationMachine × List AuthenticationEffect
run m [] = (m, [])
run m (i ∷ is) =
    let (next, t) = apply m i in let rest = run next is in (rest.0, t.effects ++ rest.1)

-- The exchange requests among the effects.
abbrev pub exchanges : List AuthenticationEffect → ℕ
exchanges [] = 0
exchanges (send_exchange e t f r c v ∷ es) = 1 + exchanges es
exchanges (_ ∷ es) = exchanges es

-- A round stays within the configured bound and within a nonzero byte.
abbrev pub RoundIsValid : ℕ → AuthenticationState → Type 0
RoundIsValid limit (exchanging f round t d) = (1 ≤ round) × (round ≤ limit) × (round ≤ 255)
RoundIsValid limit _ = Unit

-- The rounds that a state has used up; one that has ended uses no more.
abbrev used : ℕ → AuthenticationState → ℕ
used limit dormant = 0
used limit (handshaking f t d) = 0
used limit (exchanging f round t d) = round
used limit succeeded = limit
used limit (failed why) = limit

exchanges-append :
    (xs ys : List AuthenticationEffect) → exchanges (xs ++ ys) ≡ exchanges xs + exchanges ys
exchanges-append [] ys = omega arith
exchanges-append (x ∷ xs) ys = ground (arith, exchanges-append xs ys)

apply-RoundIsValid :
    (limit : ℕ) (m : AuthenticationMachine) (i : AuthenticationInput)
    → m.limits.max_exchange_rounds ≡ limit
    → 1 ≤ limit
    → RoundIsValid limit m.state
    → ((apply m i).0.limits.max_exchange_rounds ≡ limit)
      × RoundIsValid limit (apply m i).0.state
      × (used limit m.state + exchanges (apply m i).1.effects ≤ used limit (apply m i).0.state)
unfolding apply
apply-RoundIsValid limit m i same positive v = ground (arith, same)

used-limit : (limit : ℕ) (s : AuthenticationState) → RoundIsValid limit s → used limit s ≤ limit
used-limit limit s v = ground arith

run_bounded :
    (limit : ℕ) (m : AuthenticationMachine) (is : List AuthenticationInput)
    → m.limits.max_exchange_rounds ≡ limit
    → 1 ≤ limit
    → RoundIsValid limit m.state
    → RoundIsValid limit (run m is).0.state
      × (used limit m.state + exchanges (run m is).1 ≤ used limit (run m is).0.state)
run_bounded limit m [] same positive v = (v, omega arith)
run_bounded limit m (i ∷ is) same positive v =
    let (next, valid, step) = apply-RoundIsValid limit m i same positive v in
    let (valid', rest) = run_bounded limit (apply m i).0 is next positive valid in
    (
      valid',
      omega (arith, step, rest, exchanges-append (apply m i).1.effects (run (apply m i).0 is).1),
    )

-- An exchange whose bound is at least one round never leaves the rounds from one to its bound, and
-- sends at most that many requests in all, whatever the broker answers and however often.
pub rounds_bounded :
    (epoch : ConnectionEpoch) (transport_id : TransportId) (p : SaslProtocol)
    (l : AuthenticationLimits) (is : List AuthenticationInput)
    → 1 ≤ l.max_exchange_rounds
    → RoundIsValid l.max_exchange_rounds (run (new epoch transport_id p l) is).0.state
      × (exchanges (run (new epoch transport_id p l) is).1 ≤ l.max_exchange_rounds)
unfolding new
rounds_bounded epoch transport_id p l is positive =
    let (valid, sent) =
      run_bounded l.max_exchange_rounds (new epoch transport_id p l) is refl positive tt in
    (
      valid,
      omega (
        arith,
        sent,
        used-limit l.max_exchange_rounds (run (new epoch transport_id p l) is).0.state valid,
      ),
    )
