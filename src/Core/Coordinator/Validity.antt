-- ===== src/Core/Coordinator/Validity.antt =====
-- What holds at every point of a coordinator lookup: coordinator.
use kafka_driver.Core.Identity.{add_duration, CoordinatorEpoch, next_epoch, CoordinatorKey}
use kafka_driver.Base.{Option, some, ◌≤◌, ◌+◌, arith, none, ◌≡◌, List, ◌∷◌, ◌++◌, []}
use kafka_driver.Core.Coordinator.{
  CoordinatorMachine, CoordinatorState, CoordinatorInput, CoordinatorEffect, CoordinatorRevocation,
  CoordinatorRoute, unknown, discovering, retrying, ready, max_discovery_retries, apply, new, start,
  start_after, resolve, refresh_at, invalidate, withdraw, succeed, fail, reject, retry_elapsed,
}

-- The route that is served while its successor is looked up: none under a revocation, else the one of
-- the epoch before.
abbrev Serves : Option CoordinatorRevocation → Option CoordinatorRoute → CoordinatorEpoch → Type 0
Serves pending none target = Unit
Serves none (some route) target = route.epoch + 1 ≡ target
Serves (some r) (some route) target = ⊥

abbrev NotRevoked : Option CoordinatorRevocation → Type 0
NotRevoked none = Unit
NotRevoked (some r) = ⊥

abbrev pub StateIsValid : Option CoordinatorRevocation → CoordinatorState → Type 0
StateIsValid pending (unknown _) = NotRevoked pending
StateIsValid pending (discovering c _ target _ retries) =
    Serves pending c target × (retries ≤ max_discovery_retries)
StateIsValid pending (retrying c _ target _ retries _) =
    Serves pending c target × (retries ≤ max_discovery_retries)
StateIsValid pending (ready _) = NotRevoked pending

abbrev pub CoordinatorIsValid : CoordinatorMachine → Type 0
CoordinatorIsValid m = StateIsValid m.pending m.state

pub apply-CoordinatorIsValid :
    (m : CoordinatorMachine) (i : CoordinatorInput)
    → CoordinatorIsValid m
    → CoordinatorIsValid (apply m i).0
unfolding apply resolve start start_after refresh_at invalidate withdraw succeed fail reject
    retry_elapsed next_epoch add_duration
apply-CoordinatorIsValid m i v = ground (arith, v)

-- The machine after a list of inputs, with all effects in order.
abbrev pub run :
    CoordinatorMachine → List CoordinatorInput → CoordinatorMachine × List CoordinatorEffect
run m [] = (m, [])
run m (i ∷ is) =
    let (next, t) = apply m i in let rest = run next is in (rest.0, t.effects ++ rest.1)

run_valid :
    (m : CoordinatorMachine) (is : List CoordinatorInput)
    → CoordinatorIsValid m
    → CoordinatorIsValid (run m is).0
run_valid m [] v = v
run_valid m (i ∷ is) v = run_valid (apply m i).0 is (apply-CoordinatorIsValid m i v)

-- At every point of every run a pending revocation leaves no route to serve, a route that is served while
-- its successor is looked up has the epoch before the one looked up, and a lookup has been retried at
-- most eight times.
pub run-CoordinatorIsValid :
    (key : CoordinatorKey) (is : List CoordinatorInput) → CoordinatorIsValid (run (new key) is).0
unfolding new
run-CoordinatorIsValid key is = run_valid (new key) is tt
