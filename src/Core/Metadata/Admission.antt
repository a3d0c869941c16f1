-- ===== src/Core/Metadata/Admission.antt =====
-- Demand for metadata and the withdrawal of routes: admission.rs of
-- crates/kafka-driver-core/src/metadata, with the construction and lookups of machine.rs.
use kafka_driver.Base.{
  ℕ, Option, some, Bool, none, ◌||◌, [], true, if◌then◌else◌, contains, false, ◌&&◌, not, leb,
  length, ◌++◌, ◌∷◌,
}
use Prim.Native.Nat.{ℕ}
use kafka_driver.Core.Identity.{
  OperationId, MetadataGeneration, OutcomeStamp, is_after, next_generation,
}
use kafka_driver.Core.Directory.{BrokerRoute, is_same_broker}
use kafka_driver.Core.Metadata.Partition.{PartitionRoute, is_same_assignment}
use kafka_driver.Core.Metadata.Snapshot.{
  MetadataSnapshot, generation, without_controller, without_partition, partition_route,
}
use kafka_driver.Core.Metadata.State.{
  MetadataQuery, MetadataState, MetadataTransition, MetadataDisposition, cluster, topic, query_eq,
  empty, refreshing, ready, fetch, generation_exhausted, coalesced, queued, query_capacity_reached,
  ignored_stale, silent, emits,
}
use kafka_driver.Core.Metadata.Revocations.{
  MetadataRevocations, no_revocations, revoke_controller, revoke_partition, controller_pending,
  controller_requires, partition_pending, partition_requires,
}

pub record MetadataMachine : Type 0 where
  pub state : MetadataState
  pub pending_queries : ℕ
  pub revocations : MetadataRevocations

unfoldable pub with_query_limits : MetadataGeneration → (pending_queries : ℕ) → MetadataMachine
with_query_limits initial pending_queries = record {
  state = empty initial;
  pending_queries = pending_queries;
  revocations = no_revocations;
}

abbrev pub current : MetadataState → Option MetadataSnapshot
current (empty _) = none
current (refreshing c _ _ _ _) = c
current (ready snapshot) = some snapshot

-- A change through `current_mut`.
abbrev pub map_current : (MetadataSnapshot → MetadataSnapshot) → MetadataState → MetadataState
map_current f (empty next) = empty next
map_current f (refreshing none operation query target queue) =
    refreshing none operation query target queue
map_current f (refreshing (some snapshot) operation query target queue) =
    refreshing (some (f snapshot)) operation query target queue
map_current f (ready snapshot) = ready (f snapshot)

unfoldable pub query_pending : MetadataMachine → MetadataQuery → Bool
query_pending m query = elim m.state [
  | refreshing _ _ active _ queue ↦ query_eq.same active query || contains queue query
  | _ ↦ false
]

unfoldable pub start :
    MetadataMachine
    → Option MetadataSnapshot
    → OperationId
    → MetadataGeneration
    → MetadataQuery
    → MetadataMachine × MetadataTransition
start m c operation target query = (
  record m { state = refreshing c operation query target [] },
  emits (fetch operation target query),
)

start_after :
    MetadataMachine
    → MetadataSnapshot
    → OperationId
    → MetadataQuery
    → Option MetadataGeneration
    → MetadataMachine × MetadataTransition
unfolding start
start_after m snapshot operation query none = (m, emits generation_exhausted)
start_after m snapshot operation query (some next) = start m (some snapshot) operation next query

pub data QueryRecency : Type 0 where
  current_may_satisfy must_follow_current : QueryRecency

abbrev pub may_satisfy : QueryRecency → Bool
may_satisfy current_may_satisfy = true
may_satisfy must_follow_current = false

unfoldable pub admit :
    MetadataMachine
    → MetadataQuery
    → OperationId
    → QueryRecency
    → MetadataMachine × MetadataTransition
unfolding start start_after
admit m query operation recency = elim m.state [
  | refreshing c active_operation active target queue ↦
      if query_eq.same active query && may_satisfy recency || contains queue query
      then (m, silent coalesced)
      else if leb m.pending_queries (length queue)
      then (m, silent query_capacity_reached)
      else (
        record m { state = refreshing c active_operation active target (queue ++ query ∷ []) },
        silent queued,
      )
  | empty next ↦ start m none operation next query
  | ready snapshot ↦ start_after m snapshot operation query (next_generation (generation snapshot))
]

abbrev pub refresh_with :
    MetadataMachine → MetadataQuery → OperationId → MetadataMachine × MetadataTransition
refresh_with m query operation = admit m query operation must_follow_current

abbrev pub is_refused : MetadataDisposition → Bool
is_refused query_capacity_reached = true
is_refused _ = false

-- A refresh, and the withdrawal that follows where the query was not refused.
unfoldable pub withdraw_with :
    (MetadataMachine → MetadataMachine)
    → MetadataMachine × MetadataTransition
    → MetadataMachine × MetadataTransition
withdraw_with f (m, t) = if is_refused t.disposition then (m, t) else (f m, t)

abbrev pub withdraw_controller : BrokerRoute → OutcomeStamp → MetadataMachine → MetadataMachine
withdraw_controller route observed_at m = record m {
  state = map_current without_controller m.state;
  revocations = revoke_controller m.revocations route observed_at;
}

abbrev pub withdraw_partition : PartitionRoute → OutcomeStamp → MetadataMachine → MetadataMachine
withdraw_partition route observed_at m = record m {
  state = map_current (λ s. without_partition s route.topic route.partition) m.state;
  revocations = revoke_partition m.revocations route observed_at;
}

-- No controller is known, it is another broker, or newer evidence has confirmed it since.
abbrev pub controller_outdated : Option BrokerRoute → BrokerRoute → OutcomeStamp → Bool
controller_outdated none route observed_at = true
controller_outdated (some c) route observed_at =
    not (is_same_broker c route) || is_after c.evidence observed_at

abbrev pub controller_of : Option MetadataSnapshot → Option BrokerRoute
controller_of none = none
controller_of (some snapshot) = snapshot.controller

unfoldable pub invalidate :
    MetadataMachine
    → BrokerRoute
    → OutcomeStamp
    → OperationId
    → MetadataMachine × MetadataTransition
unfolding withdraw_with
invalidate m route observed_at operation =
    let withdrawn =
      withdraw_with (withdraw_controller route observed_at) (refresh_with m cluster operation) in
    if controller_pending m.revocations route
    then (if controller_requires m.revocations route observed_at
        then withdrawn
        else (m, silent coalesced))
    else if controller_outdated (controller_of (current m.state)) route observed_at
    then (m, silent ignored_stale)
    else withdrawn

abbrev pub partition_outdated : Option PartitionRoute → PartitionRoute → OutcomeStamp → Bool
partition_outdated none route observed_at = true
partition_outdated (some c) route observed_at =
    not (is_same_assignment c route) || is_after c.evidence observed_at

abbrev pub route_of : Option MetadataSnapshot → PartitionRoute → Option PartitionRoute
route_of none route = none
route_of (some snapshot) route = partition_route snapshot route.topic route.partition

unfoldable pub invalidate_partition :
    MetadataMachine
    → PartitionRoute
    → OutcomeStamp
    → OperationId
    → MetadataMachine × MetadataTransition
unfolding withdraw_with
invalidate_partition m route observed_at operation =
    let withdrawn =
      withdraw_with (withdraw_partition route observed_at)
        (refresh_with m (topic route.topic) operation) in
    if partition_pending m.revocations route
    then (if partition_requires m.revocations route observed_at
        then withdrawn
        else (m, silent coalesced))
    else if partition_outdated (route_of (current m.state) route) route observed_at
    then (m, silent ignored_stale)
    else withdrawn
