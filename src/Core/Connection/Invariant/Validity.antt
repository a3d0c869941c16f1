-- ===== src/Core/Connection/Invariant/Validity.antt =====
-- The queue of an active connection epoch: the statement for one step.
use kafka_driver.Base.{i32_max}
use kafka_driver.Core.Connection.Queue.{QueueIsValid}
use kafka_driver.Base.{ℕ, ◌≤◌, ◌≡◌}
use kafka_driver.Base.{ℕ, ◌≡◌}
use kafka_driver.Core.Connection.{ℕ}
use kafka_driver.Core.Connection.State.{
  ConnectionMachine, StateData, Decision, active, ActiveConnection,
}
use kafka_driver.Core.Connection.Flow.{Submitted, decided, invalid}

pub record ActiveIsValid (limit : ℕ) (c : ActiveConnection) : Type 0 where
  pub capacity_is_limit : c.pending.capacity ≡ limit
  pub queue : QueueIsValid limit c.pending.calls
  pub next_is_value : c.next_correlation ≤ i32_max

abbrev pub StateIsValid : ℕ → StateData → Type 0
StateIsValid limit (active mode c) = ActiveIsValid limit c
StateIsValid limit _ = Unit

-- Before and after a step, whose limits stay.
abbrev pub Keeps : ConnectionMachine → ConnectionMachine × Decision → Type 0
Keeps m (m', d) =
    (m'.limits ≡ m.limits)
    × (StateIsValid m.limits.in_flight m.state → StateIsValid m.limits.in_flight m'.state)

abbrev pub SubmittedKeeps : ConnectionMachine → Submitted → Type 0
SubmittedKeeps m (decided m' d) = Keeps m (m', d)
SubmittedKeeps m (invalid e) = Unit
