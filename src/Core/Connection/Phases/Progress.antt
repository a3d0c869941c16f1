-- ===== src/Core/Connection/Phases/Progress.antt =====
-- The order of the phases of a connection epoch: the statement for one step.

use kafka_driver.Base.{ℕ, ◌≤◌, ◌≡◌}
use kafka_driver.Base.{ℕ, ◌≡◌}
use kafka_driver.Core.Connection.{ℕ, state_epoch, phase}
use kafka_driver.Core.Connection.State.{
  state_epoch, phase, ConnectionPhase, ConnectionMachine, StateData, Decision, ConnectionPhase,
}
use kafka_driver.Core.Connection.Flow.{Submitted, decided, invalid}

-- How far an epoch has come.
abbrev pub rank : ConnectionPhase → ℕ
rank ConnectionPhase.dormant = 0
rank ConnectionPhase.opening = 1
rank ConnectionPhase.negotiating = 2
rank ConnectionPhase.authenticating = 3
rank ConnectionPhase.ready = 4
rank ConnectionPhase.draining = 5
rank ConnectionPhase.closing = 6
rank ConnectionPhase.closed = 7

-- The epoch is the one before, and no phase comes back.
abbrev pub Forward : StateData → ConnectionMachine × Decision → Type 0
Forward s (m, d) = (state_epoch m.state ≡ state_epoch s) × (rank (phase s) ≤ rank (phase m.state))

abbrev pub SubmittedForward : StateData → Submitted → Type 0
SubmittedForward s (decided m d) = Forward s (m, d)
SubmittedForward s (invalid e) = Unit
