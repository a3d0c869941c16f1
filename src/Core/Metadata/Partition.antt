-- ===== src/Core/Metadata/Partition.antt =====
-- Partition leaders and routes: crates/kafka-driver-core/src/metadata/partition.
use kafka_driver.Base.{
  nat_eq, nat_ord, list_ord, pair_ord, list_eq, Option, Bool, ℕ, List, if◌then◌else◌, ◌&&◌, ◌∷◌,
  ltb, ◌!=◌, false, any, ◌==◌, none, length, some, true, ◌+◌, ◌||◌, [],
}
use kafka_driver.Core.Identity.{
  BrokerId, TopicName, PartitionId, LeaderEpoch, MetadataRevision, EvidenceStamp,
}
use kafka_driver.Core.Canonical.{sort_by, adjacent_duplicate, find_by, remove_by}
use kafka_driver.Core.Directory.{BrokerRoute}

pub record PartitionLeader : Type 0 where
  pub topic : TopicName
  pub partition : PartitionId
  pub broker_id : BrokerId
  pub leader_epoch : Option LeaderEpoch
  pub revision : MetadataRevision
  pub evidence : EvidenceStamp

-- What `compare_entries` and `compare_key` compare, the topic first.
abbrev pub Partition : Type 0
Partition = TopicName × PartitionId

abbrev pub partition_of : PartitionLeader → Partition
partition_of leader = (leader.topic, leader.partition)

pub record PartitionRoute : Type 0 where
  pub broker : BrokerRoute
  pub topic : TopicName
  pub partition : PartitionId
  pub leader_epoch : Option LeaderEpoch
  pub revision : MetadataRevision
  pub evidence : EvidenceStamp

abbrev pub same_epoch : Option LeaderEpoch → Option LeaderEpoch → Bool
same_epoch none none = true
same_epoch (some a) (some b) = a == b
same_epoch _ _ = false

abbrev pub is_same_assignment : PartitionRoute → PartitionRoute → Bool
is_same_assignment a b =
    list_eq.same a.topic b.topic
    && a.partition == b.partition
    && a.broker.broker_id == b.broker.broker_id
    && same_epoch a.leader_epoch b.leader_epoch

abbrev pub is_same_fact : PartitionRoute → PartitionRoute → Bool
is_same_fact a b = is_same_assignment a b && a.revision == b.revision

pub record PartitionLeaderLimits : Type 0 where
  pub max_topics : ℕ
  pub max_partitions : ℕ

pub data PartitionLeaderSetError : Type 0 where
  partition_capacity topic_capacity : (limit : ℕ) → PartitionLeaderSetError
  duplicate_partition : PartitionId → PartitionLeaderSetError

-- A set is its list, sorted by topic and partition.
abbrev pub PartitionLeaderSet : Type 0
PartitionLeaderSet = List PartitionLeader

pub data LeaderSetResult : Type 0 where
  accepted : PartitionLeaderSet → LeaderSetResult
  refused : PartitionLeaderSetError → LeaderSetResult

abbrev is_topic : Option TopicName → TopicName → Bool
is_topic none topic = false
is_topic (some t) topic = list_eq.same t topic

-- The fold over the topics of the sorted entries, with the topic before and the count so far.
unfoldable pub count_topics : Option TopicName → ℕ → List PartitionLeader → ℕ
count_topics previous count [] = count
count_topics previous count (x ∷ xs) =
    count_topics (some x.topic) (if is_topic previous x.topic then count else count + 1) xs

within_topics : PartitionLeaderLimits → PartitionLeaderSet → LeaderSetResult
unfolding count_topics
within_topics limits leaders =
    if ltb limits.max_topics (count_topics none 0 leaders)
    then refused (topic_capacity limits.max_topics)
    else accepted leaders

unfoldable pub try_leaders : List PartitionLeader → PartitionLeaderLimits → LeaderSetResult
unfolding within_topics
try_leaders source limits =
    if ltb limits.max_partitions (length source)
    then refused (partition_capacity limits.max_partitions)
    else elim (adjacent_duplicate partition_of (sort_by partition_of source)) [
      | some duplicate ↦ refused (duplicate_partition duplicate.partition)
      | none ↦ within_topics limits (sort_by partition_of source)
    ]

unfoldable pub find_leader : PartitionLeaderSet → TopicName → PartitionId → Option PartitionLeader
find_leader leaders topic partition = find_by partition_of leaders (topic, partition)

unfoldable pub remove_leader : PartitionLeaderSet → TopicName → PartitionId → PartitionLeaderSet
remove_leader leaders topic partition = remove_by partition_of leaders (topic, partition)

abbrev pub epochs_regress : Option LeaderEpoch → Option LeaderEpoch → Bool → Bool
epochs_regress (some previous) (some current) other_broker =
    ltb current previous || (current == previous && other_broker)
epochs_regress _ _ _ = false

abbrev pub assignment_regresses : (previous current : PartitionLeader) → Bool
assignment_regresses previous current =
    epochs_regress previous.leader_epoch current.leader_epoch
      (current.broker_id != previous.broker_id)

abbrev pub regresses_against : Option PartitionLeader → PartitionLeader → Bool
regresses_against none current = false
regresses_against (some previous) current = assignment_regresses previous current

unfoldable pub regresses_from : PartitionLeaderSet → (previous : PartitionLeaderSet) → Bool
unfolding find_leader
regresses_from leaders previous =
    any
      (λ current. regresses_against (find_leader previous current.topic current.partition) current)
      leaders
