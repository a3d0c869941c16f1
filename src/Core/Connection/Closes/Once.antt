-- ===== src/Core/Connection/Closes/Once.antt =====
-- Requests to close the transport of a connection epoch: the statement for one step.

use kafka_driver.Base.{ℕ, ◌≤◌, ◌≡◌}
use kafka_driver.Base.{ℕ, ◌≡◌}
use kafka_driver.Base.{List, [], ◌∷◌, ◌++◌, ◌+◌, refl, arith}
use kafka_driver.Core.Connection.Close.{Specific, failures}
use kafka_driver.Core.Connection.Pending.{PendingCall}
use kafka_driver.Core.Connection.State.{
  ConnectionEffect, CloseReason, close_transport, closing, closed,
}
use kafka_driver.Core.Connection.{ℕ}
use kafka_driver.Core.Connection.State.{ConnectionMachine, StateData, Decision}
use kafka_driver.Core.Connection.Flow.{Submitted, decided, invalid}

-- The requests to close the transport among the effects.
abbrev pub closes : List ConnectionEffect → ℕ
closes [] = 0
closes (close_transport e t r ∷ es) = 1 + closes es
closes (_ ∷ es) = closes es

-- One where the close has been asked for or has happened.
abbrev pub ended : StateData → ℕ
ended (closing e t r) = 1
ended (closed e r) = 1
ended _ = 0

abbrev pub ClosesOnce : StateData → ConnectionMachine × Decision → Type 0
ClosesOnce s (m, d) = ended s + closes d.effects ≤ ended m.state

pub closes-append : (xs ys : List ConnectionEffect) → closes (xs ++ ys) ≡ closes xs + closes ys
closes-append [] ys = omega arith
closes-append (x ∷ xs) ys = ground (arith, closes-append xs ys)

pub closes-failures :
    (reason : CloseReason) (s : Specific) (ps : List PendingCall)
    → closes (failures reason s ps) ≡ 0
unfolding failures
closes-failures reason s [] = refl
closes-failures reason s (p ∷ ps) = closes-failures reason s ps

abbrev pub SubmittedClosesOnce : StateData → Submitted → Type 0
SubmittedClosesOnce s (decided m d) = ClosesOnce s (m, d)
SubmittedClosesOnce s (invalid e) = Unit
