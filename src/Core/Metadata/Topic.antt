-- ===== src/Core/Metadata/Topic.antt =====
-- Partition counts of topics: topic.rs of crates/kafka-driver-core/src/metadata.
use kafka_driver.Base.{
  nat_ord, list_ord, List, Option, ℕ, if◌then◌else◌, any, ltb, ◌!=◌, length, some, none,
}
use kafka_driver.Core.Identity.{TopicName, EvidenceStamp}
use kafka_driver.Core.Canonical.{sort_by, adjacent_duplicate, find_by}

-- Sixteen bytes, not all of them zero.
abbrev pub KafkaTopicId : Type 0
KafkaTopicId = List ℕ

unfoldable pub topic_id_from_bytes : List ℕ → Option KafkaTopicId
topic_id_from_bytes bytes = if any (λ b. b != 0) bytes then some bytes else none

pub record TopicPartitionCount : Type 0 where
  pub topic : TopicName
  pub topic_id : Option KafkaTopicId
  pub count : ℕ
  pub evidence : EvidenceStamp

abbrev pub topic_of : TopicPartitionCount → TopicName
topic_of c = c.topic

abbrev pub TopicPartitionCountSet : Type 0
TopicPartitionCountSet = List TopicPartitionCount

pub data TopicPartitionCountSetError : Type 0 where
  capacity : (limit : ℕ) → TopicPartitionCountSetError
  duplicate : TopicPartitionCountSetError

pub data CountSetResult : Type 0 where
  accepted : TopicPartitionCountSet → CountSetResult
  refused : TopicPartitionCountSetError → CountSetResult

unfoldable pub try_counts : List TopicPartitionCount → (topic_limit : ℕ) → CountSetResult
try_counts source topic_limit =
    if ltb topic_limit (length source)
    then refused (capacity topic_limit)
    else elim (adjacent_duplicate topic_of (sort_by topic_of source)) [
      | some _ ↦ refused duplicate
      | none ↦ accepted (sort_by topic_of source)
    ]

unfoldable pub find_count : TopicPartitionCountSet → TopicName → Option TopicPartitionCount
find_count counts topic = find_by topic_of counts topic
