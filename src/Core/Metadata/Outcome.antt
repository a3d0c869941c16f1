-- ===== src/Core/Metadata/Outcome.antt =====
-- The outcomes of a refresh: outcome.rs of crates/kafka-driver-core/src/metadata.
use kafka_driver.Base.{Option, List, some, ◌∷◌, if◌then◌else◌, Bool, ◌!=◌, false, none, [], ◌||◌}
use kafka_driver.Core.Identity.{OperationId, MetadataGeneration, next_generation}
use kafka_driver.Core.Metadata.Partition.{regresses_from}
use kafka_driver.Core.Metadata.Snapshot.{MetadataSnapshot, generation}
use kafka_driver.Core.Metadata.State.{
  MetadataQuery, MetadataState, MetadataTransition, topic, empty, refreshing, ready, fetch,
  generation_exhausted, applied, rejected_leader_epoch_regression, ignored_stale, silent, emits,
}
use kafka_driver.Core.Metadata.Revocations.{settle}
use kafka_driver.Core.Metadata.Admission.{MetadataMachine}

restart :
    MetadataMachine
    → Option MetadataSnapshot
    → OperationId
    → MetadataGeneration
    → MetadataQuery
    → List MetadataQuery
    → MetadataMachine × MetadataTransition
restart m c operation target query rest = (
  record m { state = refreshing c operation query target rest },
  emits (fetch operation target query),
)

abbrev restored : Option MetadataSnapshot → MetadataGeneration → MetadataState
restored none target = empty target
restored (some snapshot) target = ready snapshot

-- The next queued query after a failure, for the same generation.
fail_refresh :
    MetadataMachine
    → Option MetadataSnapshot
    → MetadataGeneration
    → List MetadataQuery
    → OperationId
    → MetadataMachine × MetadataTransition
unfolding restart
fail_refresh m c target [] operation = (record m { state = restored c target }, silent applied)
fail_refresh m c target (query ∷ rest) operation = restart m c operation target query rest

unfoldable pub fail :
    MetadataMachine → OperationId → OperationId → MetadataMachine × MetadataTransition
unfolding fail_refresh
fail m operation followup_operation = elim m.state [
  | refreshing c expected _ target queue ↦
      if operation != expected
      then (m, silent ignored_stale)
      else fail_refresh m c target queue followup_operation
  | _ ↦ (m, silent ignored_stale)
]

abbrev pub regresses : MetadataQuery → Option MetadataSnapshot → MetadataSnapshot → Bool
regresses (topic _) (some previous) snapshot = regresses_from snapshot.leaders previous.leaders
regresses _ _ snapshot = false

-- The next queued query after a success, for the next generation if there is one.
unfoldable pub follow :
    MetadataMachine
    → MetadataSnapshot
    → List MetadataQuery
    → OperationId
    → Option MetadataGeneration
    → MetadataMachine × MetadataTransition
unfolding restart
follow m snapshot [] operation next = (record m { state = ready snapshot }, silent applied)
follow m snapshot (query ∷ rest) operation none =
    (record m { state = ready snapshot }, emits generation_exhausted)
follow m snapshot (query ∷ rest) operation (some next) =
    restart m (some snapshot) operation next query rest

-- A snapshot that is taken, with the routes withdrawn that it does not confirm.
unfoldable pub accept :
    MetadataMachine
    → MetadataSnapshot
    → MetadataQuery
    → List MetadataQuery
    → OperationId
    → MetadataMachine × MetadataTransition
unfolding follow
accept m snapshot query queue operation =
    let (revocations, kept) = settle m.revocations snapshot query in
    follow (record m { revocations = revocations }) kept queue operation
      (next_generation (generation kept))

unfoldable pub succeed :
    MetadataMachine
    → OperationId
    → MetadataSnapshot
    → OperationId
    → MetadataMachine × MetadataTransition
succeed m operation snapshot followup_operation = elim m.state [
  | refreshing c expected query target queue ↦
      if operation != expected || generation snapshot != target
      then (m, silent ignored_stale)
      else if regresses query c snapshot
      then (let (next, failed) = fail m operation followup_operation in
          (
            next,
            record { effects = failed.effects; disposition = rejected_leader_epoch_regression },
          ))
      else accept m snapshot query queue followup_operation
  | _ ↦ (m, silent ignored_stale)
]
