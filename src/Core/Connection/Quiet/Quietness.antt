-- ===== src/Core/Connection/Quiet/Quietness.antt =====
-- Steps that complete no call: the statement for one step.
use kafka_driver.Core.Connection.Accounting.{pending_calls}
use kafka_driver.Base.{◌⊎◌}
use kafka_driver.Core.Authentication.{CorrelationId}
use kafka_driver.Core.Connection.State.{write_request}
use kafka_driver.Base.{List, [], ◌∷◌, ◌≡◌, refl}
use kafka_driver.Base.{List, ◌∷◌, [], ◌≡◌, refl}
use kafka_driver.Core.Connection.{List}
use kafka_driver.Core.Connection.State.{
  ConnectionMachine, ConnectionEffect, StateData, Decision, complete_response, CloseReason,
}
use kafka_driver.Core.Connection.Pending.{PendingCall}
use kafka_driver.Core.Connection.Close.{Specific, failures}
use kafka_driver.Core.Identity.{CallId}

-- A call with its correlation, and the calls that a step writes and completes.
abbrev pub CallEntry : Type 0
CallEntry = CallId × CorrelationId

abbrev pub entries : List PendingCall → List CallEntry
entries [] = []
entries (p ∷ ps) = (p.call_id, p.correlation_id) ∷ entries ps

abbrev pub written : List ConnectionEffect → List CallEntry
written [] = []
written (write_request e t call k f ∷ es) = (call, k) ∷ written es
written (_ ∷ es) = written es

abbrev pub completed : List ConnectionEffect → List CallEntry
completed [] = []
completed (complete_response call k ∷ es) = (call, k) ∷ completed es
completed (_ ∷ es) = completed es

-- A step that completes nothing, and keeps the calls that wait or drops them all.
abbrev pub Quiet : StateData → ConnectionMachine × Decision → Type 0
Quiet s (m, d) =
    ((pending_calls m.state ≡ pending_calls s) ⊎ (pending_calls m.state ≡ []))
    × (completed d.effects ≡ [])

pub completed-failures :
    (reason : CloseReason) (s : Specific) (ps : List PendingCall)
    → completed (failures reason s ps) ≡ []
unfolding failures
completed-failures reason s [] = refl
completed-failures reason s (p ∷ ps) = completed-failures reason s ps
