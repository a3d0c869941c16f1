-- ===== src/Core/Session/Terminal.antt =====
-- The lifecycle of a session over a run: connection/session.
use kafka_driver.Base.{ℕ, ◌+◌, ◌≤◌, List, [], ◌∷◌, ◌++◌, ◌≡◌, arith}
use kafka_driver.Core.Session.{
  SessionMachine, SessionInput, SessionEffect, StateData, awaiting_transport, negotiating,
  authenticating, ready, draining, closing, closed, close_session, apply,
}

-- The machine after a list of inputs, with all effects in order.
abbrev pub run : SessionMachine → List SessionInput → SessionMachine × List SessionEffect
run m [] = (m, [])
run m (i ∷ is) =
    let (next, t) = apply m i in let rest = run next is in (rest.0, t.effects ++ rest.1)

abbrev pub rank : StateData → ℕ
rank awaiting_transport = 0
rank (negotiating d) = 1
rank (authenticating c p stage) = 2
rank (ready c) = 3
rank (draining c) = 4
rank (closing r) = 5
rank (closed r) = 6

abbrev pub closes : List SessionEffect → ℕ
closes [] = 0
closes (close_session r ∷ es) = 1 + closes es
closes (_ ∷ es) = closes es

-- One where the session has been asked to close.
abbrev ended : StateData → ℕ
ended (closing r) = 1
ended (closed r) = 1
ended _ = 0

closes-append : (xs ys : List SessionEffect) → closes (xs ++ ys) ≡ closes xs + closes ys
closes-append [] ys = omega arith
closes-append (x ∷ xs) ys = ground (arith, closes-append xs ys)

apply_forward :
    (m : SessionMachine) (i : SessionInput)
    → (rank m.state ≤ rank (apply m i).0.state)
      × (ended m.state + closes (apply m i).1.effects ≤ ended (apply m i).0.state)
unfolding apply
apply_forward m i = ground arith

run-ended :
    (m : SessionMachine) (is : List SessionInput)
    → (rank m.state ≤ rank (run m is).0.state)
      × (ended m.state + closes (run m is).1 ≤ ended (run m is).0.state)
run-ended m [] = (omega arith, omega arith)
run-ended m (i ∷ is) =
    let (forward, once) = apply_forward m i in
    let (forward', once') = run-ended (apply m i).0 is in
    (
      omega arith,
      omega (arith, once, once', closes-append (apply m i).1.effects (run (apply m i).0 is).1),
    )

-- Over any sequence of inputs a session never goes back in the order awaiting its transport,
-- negotiating, authenticating, ready, draining, closing, closed, and it asks for its transport to be
-- closed at most once.
pub closes_once :
    (m : SessionMachine) (is : List SessionInput)
    → (rank m.state ≤ rank (run m is).0.state) × (closes (run m is).1 ≤ 1)
closes_once m is =
    let (forward, once) = run-ended m is in (forward, ended_bound (run m is).0.state (omega arith))
  where
    ended_bound : (s : StateData) → closes (run m is).1 ≤ ended s → closes (run m is).1 ≤ 1
    ended_bound s h = ground arith
