-- ===== src/Core/Coordinator/Outcome.antt =====
-- The outcomes of a discovery: outcome.rs and retry.rs of crates/kafka-driver-core/src/coordinator.
use kafka_driver.Base.{
  ℕ, Option, some, Bool, if◌then◌else◌, none, false, ◌!=◌, true, ◌||◌, ltb, ◌+◌,
}
use Prim.Native.Nat.{ℕ}
use kafka_driver.Core.Identity.{
  BrokerId, OperationId, CoordinatorEpoch, EvidenceStamp, Moment, next_epoch, add_duration,
}
use kafka_driver.Core.Endpoint.{BrokerEndpoint}
use kafka_driver.Core.Coordinator.State.{
  CoordinatorMachine, CoordinatorTransition, CoordinatorRoute, CoordinatorFollowup,
  CoordinatorState, refresh, revocation, unknown, discovering, retrying, ready, find, wait_until,
  epoch_exhausted, applied, ignored_stale, silent, emits, accepts,
}
use kafka_driver.Core.Coordinator.Admission.{start}

-- 100 ms.
abbrev pub discovery_retry_backoff : ℕ
discovery_retry_backoff = 100000000

abbrev pub max_discovery_retries : ℕ
max_discovery_retries = 8

abbrev settles : CoordinatorMachine → CoordinatorState → CoordinatorMachine × CoordinatorTransition
settles m state = (record m { state = state }, silent applied)

-- A follow-up discovery, of the next epoch if there is one.
follow_up :
    CoordinatorMachine
    → CoordinatorRoute
    → (target : CoordinatorEpoch) → CoordinatorFollowup
    → OperationId
    → Option CoordinatorEpoch
    → CoordinatorMachine × CoordinatorTransition
unfolding start
follow_up m route target refresh operation none =
    (record m { state = ready route }, emits epoch_exhausted)
follow_up m route target revocation operation none =
    (record m { state = unknown target }, emits epoch_exhausted)
follow_up m route target refresh operation (some epoch) = start m (some route) operation epoch
follow_up m route target revocation operation (some epoch) = start m none operation epoch

-- What follows a discovery that no pending revocation refuses.
install :
    CoordinatorMachine
    → CoordinatorRoute
    → (target : CoordinatorEpoch) → Option CoordinatorFollowup
    → (satisfied : Bool) → OperationId
    → CoordinatorMachine × CoordinatorTransition
unfolding follow_up
install m route target none satisfied operation = settles m (ready route)
install m route target (some revocation) true operation = settles m (ready route)
install m route target (some reason) satisfied operation =
    follow_up m route target reason operation (next_epoch target)

-- A discovery whose evidence is not newer than the revocation: the next epoch is looked up.
discover_again :
    CoordinatorMachine
    → (target : CoordinatorEpoch) → OperationId
    → Option CoordinatorEpoch
    → CoordinatorMachine × CoordinatorTransition
unfolding start
discover_again m target operation none =
    (record m { state = unknown target; pending = none }, emits epoch_exhausted)
discover_again m target operation (some epoch) = start m none operation epoch

accept_route :
    CoordinatorMachine
    → CoordinatorRoute
    → (target : CoordinatorEpoch) → Option CoordinatorFollowup
    → OperationId
    → CoordinatorMachine × CoordinatorTransition
unfolding install discover_again
accept_route m route target followup operation = elim m.pending [
  | none ↦ install m route target followup false operation
  | some r ↦
      if accepts r route
      then install (record m { pending = none }) route target followup true operation
      else discover_again m target operation (next_epoch target)
]

unfoldable pub succeed :
    CoordinatorMachine
    → OperationId
    → CoordinatorEpoch
    → BrokerId
    → BrokerEndpoint
    → EvidenceStamp
    → OperationId
    → CoordinatorMachine × CoordinatorTransition
unfolding accept_route
succeed m operation epoch broker_id endpoint evidence followup_operation = elim m.state [
  | discovering _ expected target followup _ ↦
      if operation != expected || epoch != target
      then (m, silent ignored_stale)
      else accept_route m
          (record {
            key = m.key;
            broker_id = broker_id;
            endpoint = endpoint;
            epoch = target;
            evidence = evidence;
          })
          target followup followup_operation
  | _ ↦ (m, silent ignored_stale)
]

-- `Some(route) => Ready, None => Unknown`.
abbrev restored : Option CoordinatorRoute → (target : CoordinatorEpoch) → CoordinatorState
restored (some route) target = ready route
restored none target = unknown target

abbrev kept_for : CoordinatorFollowup → Option CoordinatorRoute → Option CoordinatorRoute
kept_for refresh c = c
kept_for revocation c = none

fail_lookup :
    CoordinatorMachine
    → Option CoordinatorRoute
    → (target : CoordinatorEpoch) → Option CoordinatorFollowup
    → OperationId
    → CoordinatorMachine × CoordinatorTransition
unfolding start
fail_lookup m c target (some reason) operation = start m (kept_for reason c) operation target
fail_lookup m c target none operation = elim m.pending [
  | some _ ↦ (record m { state = unknown target; pending = none }, silent applied)
  | none ↦ settles m (restored c target)
]

unfoldable pub fail :
    CoordinatorMachine
    → OperationId
    → CoordinatorEpoch
    → OperationId
    → CoordinatorMachine × CoordinatorTransition
unfolding fail_lookup
fail m operation epoch followup_operation = elim m.state [
  | discovering c expected target followup _ ↦
      if operation != expected || epoch != target
      then (m, silent ignored_stale)
      else fail_lookup m c target followup followup_operation
  | retrying c expected target followup _ _ ↦
      if operation != expected || epoch != target
      then (m, silent ignored_stale)
      else fail_lookup m c target followup followup_operation
  | _ ↦ (m, silent ignored_stale)
]

-- The wait for a retry, where one more is allowed and its deadline fits the clock.
wait :
    CoordinatorMachine
    → Option CoordinatorRoute
    → OperationId
    → (target : CoordinatorEpoch) → Option CoordinatorFollowup
    → (retries : ℕ) → OperationId
    → Option Moment
    → CoordinatorMachine × CoordinatorTransition
unfolding fail
wait m c operation target followup retries followup_operation none =
    fail m operation target followup_operation
wait m c operation target followup retries followup_operation (some at) = (
  record m { state = retrying c operation target followup retries at },
  emits (wait_until operation target at),
)

unfoldable pub reject :
    CoordinatorMachine
    → OperationId
    → CoordinatorEpoch
    → Moment
    → OperationId
    → CoordinatorMachine × CoordinatorTransition
unfolding wait fail
reject m operation epoch now followup_operation = elim m.state [
  | discovering c expected target followup retries ↦
      if operation != expected || epoch != target
      then (m, silent ignored_stale)
      else if ltb max_discovery_retries (retries + 1)
      then fail m operation epoch followup_operation
      else wait m c operation target followup (retries + 1) followup_operation
          (add_duration now discovery_retry_backoff)
  | _ ↦ (m, silent ignored_stale)
]

unfoldable pub retry_elapsed :
    CoordinatorMachine
    → OperationId
    → CoordinatorEpoch
    → Moment
    → OperationId
    → CoordinatorMachine × CoordinatorTransition
retry_elapsed m operation epoch now retry_operation = elim m.state [
  | retrying c expected target followup retries at ↦
      if operation != expected || epoch != target
      then (m, silent ignored_stale)
      else if ltb now at
      then (m, emits (wait_until operation epoch at))
      else (
        record m { state = discovering c retry_operation target followup retries },
        emits (find retry_operation m.key target),
      )
  | _ ↦ (m, silent ignored_stale)
]
