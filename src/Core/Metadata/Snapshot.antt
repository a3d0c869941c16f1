-- ===== src/Core/Metadata/Snapshot.antt =====
-- One coherent generation of cluster facts: snapshot.rs of crates/kafka-driver-core/src/metadata.
use kafka_driver.Base.{Option, List, none, ◌∷◌, some, []}
use kafka_driver.Core.Identity.{BrokerId, TopicName, PartitionId, MetadataGeneration}
use kafka_driver.Core.Directory
use kafka_driver.Core.Directory.{BrokerDirectory, BrokerRoute, ResolvedRoute}
use kafka_driver.Core.Metadata.Partition.{
  PartitionLeader, PartitionLeaderSet, PartitionRoute, find_leader, remove_leader,
}
use kafka_driver.Core.Metadata.Topic.{TopicPartitionCountSet}

pub record MetadataSnapshot : Type 0 where
  pub brokers : BrokerDirectory
  pub controller : Option BrokerRoute
  pub leaders : PartitionLeaderSet
  pub topic_counts : TopicPartitionCountSet

pub data MetadataSnapshotError : Type 0 where
  unknown_controller : BrokerId → MetadataSnapshotError
  unknown_partition_leader : BrokerId → PartitionId → MetadataSnapshotError

pub data SnapshotResult : Type 0 where
  coherent : MetadataSnapshot → SnapshotResult
  incoherent : MetadataSnapshotError → SnapshotResult

abbrev pub generation : MetadataSnapshot → MetadataGeneration
generation s = s.brokers.generation

-- The first leader that is not a member.
unfoldable pub unknown_leader : BrokerDirectory → List PartitionLeader → Option PartitionLeader
unknown_leader brokers [] = none
unknown_leader brokers (x ∷ xs) =
    let rest = unknown_leader brokers xs in
    elim (Directory.route_to brokers x.broker_id) [ none ↦ some x | some _ ↦ rest ]

check_leaders :
    BrokerDirectory
    → Option BrokerRoute
    → PartitionLeaderSet
    → TopicPartitionCountSet
    → SnapshotResult
unfolding unknown_leader
check_leaders brokers controller leaders topic_counts = elim (unknown_leader brokers leaders) [
  | some x ↦ incoherent (unknown_partition_leader x.broker_id x.partition)
  | none ↦ coherent (record {
    brokers = brokers;
    controller = controller;
    leaders = leaders;
    topic_counts = topic_counts;
  })
]

unfoldable pub try_with_topic_counts :
    BrokerDirectory → Option BrokerId → PartitionLeaderSet → TopicPartitionCountSet → SnapshotResult
unfolding check_leaders
try_with_topic_counts brokers none leaders topic_counts =
    check_leaders brokers none leaders topic_counts
try_with_topic_counts brokers (some broker_id) leaders topic_counts =
    elim (Directory.route_to brokers broker_id) [
      | none ↦ incoherent (unknown_controller broker_id)
      | some route ↦ check_leaders brokers (some route) leaders topic_counts
    ]

route_from : PartitionLeader → Option BrokerRoute → Option PartitionRoute
route_from leader none = none
route_from leader (some broker) = some (record {
  broker = broker;
  topic = leader.topic;
  partition = leader.partition;
  leader_epoch = leader.leader_epoch;
  revision = leader.revision;
  evidence = leader.evidence;
})

unfoldable pub partition_route : MetadataSnapshot → TopicName → PartitionId → Option PartitionRoute
unfolding route_from
partition_route s topic partition = elim (find_leader s.leaders topic partition) [
  | none ↦ none
  | some leader ↦ route_from leader (Directory.route_to s.brokers leader.broker_id)
]

abbrev pub resolve_broker : MetadataSnapshot → BrokerRoute → ResolvedRoute
resolve_broker s route = Directory.resolve s.brokers route

abbrev pub without_controller : MetadataSnapshot → MetadataSnapshot
without_controller s = record s { controller = none }

unfoldable pub without_partition : MetadataSnapshot → TopicName → PartitionId → MetadataSnapshot
without_partition s topic partition = record s { leaders = remove_leader s.leaders topic partition }
