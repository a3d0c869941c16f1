-- ===== src/Core/Metadata/Revocations.antt =====
-- Routes that are withdrawn until newer metadata: revocation.rs of
-- crates/kafka-driver-core/src/metadata.
use Prim.Native.Nat.{max}
use kafka_driver.Base.{
  nat_eq, list_eq, Option, none, some, List, Bool, [], if◌then◌else◌, ◌∷◌, true, false, ◌&&◌, any,
  ltb,
}
use kafka_driver.Core.Identity.{OutcomeStamp, EvidenceStamp, is_after, TopicName}
use kafka_driver.Core.Directory.{BrokerRoute, is_same_broker}
use kafka_driver.Core.Metadata.Partition.{PartitionRoute, is_same_assignment}
use kafka_driver.Core.Metadata.Snapshot.{MetadataSnapshot, without_controller, without_partition}
use kafka_driver.Core.Metadata.State.{MetadataQuery, cluster, topic}

pub record ControllerRevocation : Type 0 where
  pub route : BrokerRoute
  pub required_after : OutcomeStamp

pub record PartitionRevocation : Type 0 where
  pub route : PartitionRoute
  pub required_after : OutcomeStamp

pub record MetadataRevocations : Type 0 where
  pub controller : Option ControllerRevocation
  pub partitions : List PartitionRevocation

abbrev pub no_revocations : MetadataRevocations
no_revocations = record { controller = none; partitions = [] }

abbrev revoke_in : Option ControllerRevocation → BrokerRoute → OutcomeStamp → ControllerRevocation
revoke_in none route after = record { route = route; required_after = after }
revoke_in (some r) route after =
    if is_same_broker r.route route
    then record r { required_after = max r.required_after after }
    else record { route = route; required_after = after }

abbrev pub revoke_controller :
    MetadataRevocations → BrokerRoute → OutcomeStamp → MetadataRevocations
revoke_controller rs route after = record rs {
  controller = some (revoke_in rs.controller route after);
}

-- The first revocation of the assignment observes the moment; a new one goes to the end.
unfoldable pub revoke_assignment :
    List PartitionRevocation → PartitionRoute → OutcomeStamp → List PartitionRevocation
revoke_assignment [] route after = record { route = route; required_after = after } ∷ []
revoke_assignment (r ∷ rs) route after =
    let rest = revoke_assignment rs route after in
    if is_same_assignment r.route route
    then record r { required_after = max r.required_after after } ∷ rs
    else r ∷ rest

abbrev pub revoke_partition :
    MetadataRevocations → PartitionRoute → OutcomeStamp → MetadataRevocations
revoke_partition rs route after = record rs {
  partitions = revoke_assignment rs.partitions route after;
}

abbrev is_cluster : MetadataQuery → Bool
is_cluster cluster = true
is_cluster (topic _) = false

abbrev is_topic_query : MetadataQuery → TopicName → Bool
is_topic_query cluster name = false
is_topic_query (topic t) name = list_eq.same t name

unfoldable pub settle_controller :
    Option ControllerRevocation
    → MetadataSnapshot
    → MetadataQuery
    → Option ControllerRevocation × MetadataSnapshot
settle_controller none snapshot query = (none, snapshot)
settle_controller (some r) snapshot query =
    if is_cluster query && is_after snapshot.brokers.evidence r.required_after
    then (none, snapshot)
    else (some r, without_controller snapshot)

abbrev pub satisfied : PartitionRevocation → EvidenceStamp → MetadataQuery → Bool
satisfied r evidence query =
    is_topic_query query r.route.topic && is_after evidence r.required_after

-- `partitions.retain`, which withdraws the partitions that it retains.
unfoldable pub settle_partitions :
    List PartitionRevocation
    → EvidenceStamp
    → MetadataSnapshot
    → MetadataQuery
    → List PartitionRevocation × MetadataSnapshot
settle_partitions [] evidence snapshot query = ([], snapshot)
settle_partitions (r ∷ rs) evidence snapshot query =
    let freed = settle_partitions rs evidence snapshot query in
    let held =
      settle_partitions rs evidence (without_partition snapshot r.route.topic r.route.partition)
        query in
    if satisfied r evidence query then freed else (r ∷ held.0, held.1)

unfoldable pub settle :
    MetadataRevocations → MetadataSnapshot → MetadataQuery → MetadataRevocations × MetadataSnapshot
unfolding settle_controller settle_partitions
settle rs snapshot query =
    let (controller, first) = settle_controller rs.controller snapshot query in
    let (partitions, second) =
      settle_partitions rs.partitions snapshot.brokers.evidence first query in
    (record { controller = controller; partitions = partitions }, second)

unfoldable pub controller_pending : MetadataRevocations → BrokerRoute → Bool
controller_pending rs route = elim rs.controller [
  | none ↦ false
  | some r ↦ is_same_broker r.route route
]

unfoldable pub controller_requires : MetadataRevocations → BrokerRoute → OutcomeStamp → Bool
controller_requires rs route observed_at = elim rs.controller [
  | none ↦ false
  | some r ↦ is_same_broker r.route route && ltb r.required_after observed_at
]

unfoldable pub partition_pending : MetadataRevocations → PartitionRoute → Bool
partition_pending rs route = any (λ r. is_same_assignment r.route route) rs.partitions

unfoldable pub partition_requires : MetadataRevocations → PartitionRoute → OutcomeStamp → Bool
partition_requires rs route observed_at =
    any (λ r. is_same_assignment r.route route && ltb r.required_after observed_at) rs.partitions
