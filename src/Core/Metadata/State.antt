-- ===== src/Core/Metadata/State.antt =====
-- The data of the metadata machine: query.rs, state.rs, input.rs, effect.rs, transition.rs and
-- decision.rs of crates/kafka-driver-core/src/metadata.
use kafka_driver.Base.{
  nat_eq, list_eq, same_list_iff, Eq, Bool, ◌≡◌, Option, List, [], ◌∷◌, true, false, ◌↔◌, arith, ap,
  refl,
}
use kafka_driver.Core.Identity.{OperationId, MetadataGeneration, OutcomeStamp, TopicName}
use kafka_driver.Core.Directory.{BrokerRoute}
use kafka_driver.Core.Metadata.Partition.{PartitionRoute}
use kafka_driver.Core.Metadata.Snapshot.{MetadataSnapshot}

pub data MetadataQuery : Type 0 where
  cluster : MetadataQuery
  topic : TopicName → MetadataQuery

abbrev same_query : MetadataQuery → MetadataQuery → Bool
same_query cluster cluster = true
same_query (topic a) (topic b) = list_eq.same a b
same_query _ _ = false

pub same_query_iff : (a b : MetadataQuery) → (same_query a b ≡ true) ↔ (a ≡ b)
same_query_iff cluster cluster = (λ h. refl, λ h. refl)
same_query_iff cluster (topic b) =
    (λ h. absurd (ground (arith, h)), λ h. absurd (ground (arith, h)))
same_query_iff (topic a) cluster =
    (λ h. absurd (ground (arith, h)), λ h. absurd (ground (arith, h)))
same_query_iff (topic a) (topic b) =
    (λ h. ap topic ((same_list_iff a b).0 h), λ h. (same_list_iff a b).1 (ground (arith, h)))

instance abbrev pub query_eq : Eq MetadataQuery
query_eq = record { same = same_query; same_iff = same_query_iff }

pub data MetadataState : Type 0 where
  empty : (next : MetadataGeneration) → MetadataState
  refreshing :
      (current : Option MetadataSnapshot)
      → OperationId
      → MetadataQuery
      → (target : MetadataGeneration) → (queued : List MetadataQuery) → MetadataState
  ready : MetadataSnapshot → MetadataState

pub data MetadataInput : Type 0 where
  resolve refresh : MetadataQuery → OperationId → MetadataInput
  invalidate_broker_route : BrokerRoute → (observed_at : OutcomeStamp) → OperationId → MetadataInput
  invalidate_partition_route :
      PartitionRoute → (observed_at : OutcomeStamp) → OperationId → MetadataInput
  refresh_succeeded :
      OperationId → MetadataSnapshot → (followup_operation : OperationId) → MetadataInput
  refresh_failed : OperationId → (followup_operation : OperationId) → MetadataInput

pub data MetadataEffect : Type 0 where
  fetch : OperationId → MetadataGeneration → MetadataQuery → MetadataEffect
  generation_exhausted : MetadataEffect

pub data MetadataDisposition : Type 0 where
  applied coalesced queued query_capacity_reached rejected_leader_epoch_regression ignored_stale :
      MetadataDisposition

pub record MetadataTransition : Type 0 where
  pub effects : List MetadataEffect
  pub disposition : MetadataDisposition

abbrev pub silent : MetadataDisposition → MetadataTransition
silent why = record { effects = []; disposition = why }

abbrev pub emits : MetadataEffect → MetadataTransition
emits effect = record { effects = effect ∷ []; disposition = applied }
