-- ===== src/Core/Connection/Ending.antt =====
-- The end of a connection epoch over a whole run.
use kafka_driver.Base.{ℕ, ◌+◌, ◌≤◌, Option, none, some, List, [], ◌∷◌, arith}
use kafka_driver.Core.Connection.{apply, dispatch, conclude, proceed}
use kafka_driver.Core.Connection.Flow.{Submitted, decided, invalid}
use kafka_driver.Core.Connection.State.{
  ConnectionMachine, ConnectionInput, StateData, InputKind, kind,
}
use kafka_driver.Core.Connection.Closes.{
  closes, ended, closes-append, SubmittedClosesOnce, dispatch-ClosesOnce,
}
use kafka_driver.Core.Connection.Runs.{outcome, step, run}

conclude-closes :
    (m : ConnectionMachine) (n : ℕ) (k : InputKind) (s : Submitted)
    → SubmittedClosesOnce m.state s
    → ended m.state + closes (outcome m (conclude m n k s)).1
      ≤ ended (outcome m (conclude m n k s)).0.state
unfolding conclude
conclude-closes m n k (decided m' d) once = once
conclude-closes m n k (invalid e) once = omega arith

proceed-closes :
    (m : ConnectionMachine) (i : ConnectionInput) (n : Option ℕ)
    → ended m.state + closes (outcome m (proceed m i n)).1
      ≤ ended (outcome m (proceed m i n)).0.state
unfolding proceed
proceed-closes m i none = omega arith
proceed-closes m i (some n) = conclude-closes m n (kind i) (dispatch m i) (dispatch-ClosesOnce m i)

step-closes :
    (m : ConnectionMachine) (i : ConnectionInput)
    → ended m.state + closes (step m i).1 ≤ ended (step m i).0.state
unfolding apply
step-closes m i = proceed-closes m i m.next_sequence

run-closes :
    (m : ConnectionMachine) (is : List ConnectionInput)
    → ended m.state + closes (run m is).1 ≤ ended (run m is).0.state
run-closes m [] = omega arith
run-closes m (i ∷ is) = omega (
  arith,
  step-closes m i,
  run-closes (step m i).0 is,
  closes-append (step m i).1 (run (step m i).0 is).1,
)

ended-bound : (s : StateData) → ended s ≤ 1
ended-bound s = ground arith

-- Over any run a connection epoch asks for its transport to be closed at most once, and not at all
-- where it is already closing or closed.
pub requests_close_once :
    (m : ConnectionMachine) (is : List ConnectionInput) → ended m.state + closes (run m is).1 ≤ 1
requests_close_once m is = omega (arith, run-closes m is, ended-bound (run m is).0.state)
