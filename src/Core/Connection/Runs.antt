-- ===== src/Core/Connection/Runs.antt =====
-- Sequences of inputs to one connection epoch.
use kafka_driver.Base.{ℕ, ◌+◌, Option, none, some, List, [], ◌∷◌, ◌++◌, ◌≡◌, arith}
use kafka_driver.Core.Connection.{apply, Applied, transition, error, dispatch, conclude, proceed}
use kafka_driver.Core.Connection.Flow.{Submitted, decided, invalid}
use kafka_driver.Core.Connection.State.{
  ConnectionMachine, ConnectionInput, ConnectionEffect, InputKind, kind,
}
use kafka_driver.Core.Connection.Accounting.{
  waiting, answers, answers-append, pending_calls, submits, SubmittedBalanced, dispatch-Balanced,
}
use kafka_driver.Core.Identity.{CallId}

-- The machine and the effects after one input; an error of the machine leaves it as it was.
abbrev pub outcome : ConnectionMachine → Applied → ConnectionMachine × List ConnectionEffect
outcome m (transition m' es r) = (m', es)
outcome m (error e) = (m, [])

abbrev pub step : ConnectionMachine → ConnectionInput → ConnectionMachine × List ConnectionEffect
step m i = outcome m (apply m i)

-- A list of inputs: the machine after it, and all effects in their order.
abbrev pub run :
    ConnectionMachine → List ConnectionInput → ConnectionMachine × List ConnectionEffect
run m [] = (m, [])
run m (i ∷ is) = let rest = run (step m i).0 is in (rest.0, (step m i).1 ++ rest.1)

-- The submissions of a call that the machine did not refuse as an error.
abbrev submitted : CallId → ConnectionInput → Applied → ℕ
submitted call i (transition m es r) = submits call i
submitted call i (error e) = 0

abbrev pub taken : CallId → ConnectionMachine → List ConnectionInput → ℕ
taken call m [] = 0
taken call m (i ∷ is) = submitted call i (apply m i) + taken call (step m i).0 is

conclude-Balanced :
    (call : CallId) (m : ConnectionMachine) (i : ConnectionInput) (n : ℕ) (k : InputKind)
    (s : Submitted)
    → SubmittedBalanced call m.state (submits call i) s
    → waiting call (pending_calls (outcome m (conclude m n k s)).0.state)
        + answers call (outcome m (conclude m n k s)).1
      ≡ waiting call (pending_calls m.state) + submitted call i (conclude m n k s)
unfolding conclude
conclude-Balanced call m i n k (decided m' d) b = b
conclude-Balanced call m i n k (invalid e) b = omega arith

proceed-Balanced :
    (call : CallId) (m : ConnectionMachine) (i : ConnectionInput) (n : Option ℕ)
    → waiting call (pending_calls (outcome m (proceed m i n)).0.state)
        + answers call (outcome m (proceed m i n)).1
      ≡ waiting call (pending_calls m.state) + submitted call i (proceed m i n)
unfolding proceed
proceed-Balanced call m i none = omega arith
proceed-Balanced call m i (some n) =
    conclude-Balanced call m i n (kind i) (dispatch m i) (dispatch-Balanced call m i)

step-Balanced :
    (call : CallId) (m : ConnectionMachine) (i : ConnectionInput)
    → waiting call (pending_calls (step m i).0.state) + answers call (step m i).1
      ≡ waiting call (pending_calls m.state) + submitted call i (apply m i)
unfolding apply
step-Balanced call m i = proceed-Balanced call m i m.next_sequence

-- Over any sequence of inputs, the answers to a call, as a response or a failure, and its entries that
-- still wait are together its entries that waited at the start and its submissions that were taken:
-- no answer is lost and none is given twice.
pub run_accounting :
    (call : CallId) (m : ConnectionMachine) (is : List ConnectionInput)
    → answers call (run m is).1 + waiting call (pending_calls (run m is).0.state)
      ≡ waiting call (pending_calls m.state) + taken call m is
run_accounting call m [] = omega arith
run_accounting call m (i ∷ is) = omega (
  arith,
  step-Balanced call m i,
  run_accounting call (step m i).0 is,
  answers-append call (step m i).1 (run (step m i).0 is).1,
)
