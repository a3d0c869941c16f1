-- ===== src/Core/Identity.antt =====
-- Identities, time and delivery certainty: crates/kafka-driver-core/src/identity, time.rs and
-- delivery.rs. An identity is the `u64` that it wraps, a moment or a duration its nanoseconds.
use kafka_driver.Base.{
  ℕ, Option, none, leb, if◌then◌else◌, u64_max, checked_add, Bool, ltb, List, length, ◌==◌,
}

abbrev pub CallId : Type 0
CallId = ℕ

abbrev pub EffectId : Type 0
EffectId = ℕ

abbrev pub TimerId : Type 0
TimerId = ℕ

abbrev pub TransportId : Type 0
TransportId = ℕ

abbrev pub ConnectionEpoch : Type 0
ConnectionEpoch = ℕ

abbrev pub Moment : Type 0
Moment = ℕ

-- A duration of any size is refused where it does not fit the clock.
unfoldable pub add_duration : Moment → ℕ → Option Moment
add_duration at nanos = if leb nanos u64_max then checked_add u64_max at nanos else none

pub data Delivery : Type 0 where
  not_sent possibly_sent : Delivery

unfoldable pub combine : Delivery → Delivery → Delivery
combine not_sent not_sent = not_sent
combine not_sent possibly_sent = possibly_sent
combine possibly_sent _ = possibly_sent

-- A broker identity is not negative: `BrokerId::new` refuses the sentinels of the protocol.
abbrev pub BrokerId : Type 0
BrokerId = ℕ

abbrev pub MetadataGeneration : Type 0
MetadataGeneration = ℕ

unfoldable pub next_generation : MetadataGeneration → Option MetadataGeneration
next_generation g = checked_add u64_max g 1

-- Positions in the one sequence of observations: when a query began, and when an outcome was seen.
abbrev pub EvidenceStamp : Type 0
EvidenceStamp = ℕ

abbrev pub OutcomeStamp : Type 0
OutcomeStamp = ℕ

abbrev pub origin : EvidenceStamp
origin = 0

abbrev pub is_after : EvidenceStamp → OutcomeStamp → Bool
is_after evidence outcome = ltb outcome evidence

abbrev pub OperationId : Type 0
OperationId = ℕ

abbrev pub CoordinatorEpoch : Type 0
CoordinatorEpoch = ℕ

unfoldable pub next_epoch : CoordinatorEpoch → Option CoordinatorEpoch
next_epoch e = checked_add u64_max e 1

pub data CoordinatorKind : Type 0 where
  group transaction share : CoordinatorKind

-- A nonempty name of at most `i16::MAX` bytes.
pub record CoordinatorKey : Type 0 where
  pub kind : CoordinatorKind
  pub value : List ℕ

pub data CoordinatorKeyError : Type 0 where
  empty : CoordinatorKeyError
  too_long : (bytes limit : ℕ) → CoordinatorKeyError

pub data CoordinatorKeyResult : Type 0 where
  valid : CoordinatorKey → CoordinatorKeyResult
  invalid : CoordinatorKeyError → CoordinatorKeyResult

unfoldable pub new_key : CoordinatorKind → List ℕ → CoordinatorKeyResult
new_key kind value =
    if length value == 0
    then invalid empty
    else if ltb 32767 (length value)
    then invalid (too_long (length value) 32767)
    else valid (record { kind = kind; value = value })

-- A topic name is the list of its bytes, at least one and at most 249 where it comes from `new_topic`.
abbrev pub TopicName : Type 0
TopicName = List ℕ

pub data TopicNameError : Type 0 where
  no_name : TopicNameError
  name_too_long : (bytes limit : ℕ) → TopicNameError

pub data TopicNameResult : Type 0 where
  named : TopicName → TopicNameResult
  unnamed : TopicNameError → TopicNameResult

unfoldable pub new_topic : List ℕ → TopicNameResult
new_topic value =
    if length value == 0
    then unnamed no_name
    else if ltb 249 (length value)
    then unnamed (name_too_long (length value) 249)
    else named value

-- Partitions and leader epochs are not negative.
abbrev pub PartitionId : Type 0
PartitionId = ℕ

abbrev pub LeaderEpoch : Type 0
LeaderEpoch = ℕ

abbrev pub MetadataRevision : Type 0
MetadataRevision = ℕ
